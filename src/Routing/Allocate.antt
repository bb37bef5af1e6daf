-- ===== src/Routing/Allocate.antt =====
-- The allocations keep the tables well formed: a new column has no path, and a new row is the only
-- one without a route.
use native.Mathlib.Decide.{ℕ_discrete}
use projeto_rci.Base.{
  ℕ, ◌<◌, ◌≡◌, sym, subst, ◌∙◌, ◌≢◌, inl, inr, arith, Bool-cases, for_each, for_each_lem, ◌==◌,
  ==_ne, ==_refl, lt→ltb, update,
}
use projeto_rci.Node.{NodeId, no_node_id, max_recipients, max_neighbors}
use projeto_rci.Routing.Path.{invalid_path}
use projeto_rci.Routing.Tables.{Tables, add_recipient, add_neighbor, invalidate}
use projeto_rci.Routing.Closest.{Usable, Taken}
use projeto_rci.Routing.Indices.{Absent}
use projeto_rci.Routing.Invariant.{IsSound, IsValid, Routed, Avoids}

-- A new entry that differs from the old ones keeps an array of identifiers free of repetitions.
pub distinct-update :
    (n : ℕ) (ids : ℕ → NodeId) (k : ℕ) (id : NodeId)
    → ((i j : ℕ) → i < n → j < n → ids i ≢ no_node_id → ids i ≡ ids j → i ≡ j)
    → Absent n ids id
    → (i j : ℕ) → i < n
    → j < n
    → update ids k id i ≢ no_node_id
    → update ids k id i ≡ update ids k id j
    → i ≡ j
distinct-update n ids k id old new i j li lj used same =
    ground (arith, old i j li lj, new i li, new j lj)

-- The entries of a table whose column `k` is cleared.
module _ (t : Tables) (k : ℕ) (id : NodeId) (i j : ℕ) (li : i < max_recipients) where
  private_row :
      (add_neighbor t k id).routing_table i
      ≡ update (t.routing_table i) k (invalidate (t.routing_table i k))
  private_row =
      for_each_lem max_recipients (λ row. update row k (invalidate (row k))) t.routing_table i
      ∙ rw (lt→ltb i max_recipients li)

  pub cleared_column : k ≡ j → ((add_neighbor t k id).routing_table i j).hop_count ≡ invalid_path
  cleared_column e = rw private_row (ground arith)

  pub other_column : k ≢ j → (add_neighbor t k id).routing_table i j ≡ t.routing_table i j
  other_column e = rw private_row (ground arith)

module _ (self : NodeId) (t : Tables) (k : ℕ) (id : NodeId) (free : t.neighbor_ids k ≡ no_node_id)
    (new : Absent max_neighbors t.neighbor_ids id) (other : id ≢ self) (v : IsValid self t) where
  abbrev with_column : Tables
  with_column = add_neighbor t k id

  column_loop_free :
      (i j : ℕ)
      → i < max_recipients
      → j < max_neighbors
      → t.recipient_ids i ≢ no_node_id
      → with_column.neighbor_ids j ≢ no_node_id
      → Avoids self (with_column.routing_table i j)
  column_loop_free i j li lj ui uj = elim (ℕ_discrete k j) [
    | yes p ↦ λ n e. cc (cleared_column t k id i j li p)
    | no p ↦
        rw (other_column t k id i j li p) (v.sound.loop_free i j li lj ui (λ e. uj (ground arith)))
  ]

  -- A usable column of the new tables is another one, and was usable.
  was-Usable :
      (i j : ℕ)
      → i < max_recipients
      → Usable with_column.neighbor_ids (with_column.routing_table i) j
      → (k ≢ j) × Usable t.neighbor_ids (t.routing_table i) j
  was-Usable i j li u = elim (ℕ_discrete k j) [
    | yes p ↦ absurd (u.1 (cleared_column t k id i j li p))
    | no p ↦ (p, (λ e. u.0 (ground arith), λ e. u.1 (rw (other_column t k id i j li p) e)))
  ]

  column-Routed : (i : ℕ) → i < max_recipients → Routed t i → Routed with_column i
  column-Routed i li (m, e, least) =
      let apart : k ≢ m = λ p. least.1.0 (subst (λ x. t.neighbor_ids x ≡ no_node_id) p free) in
      (
        m,
        e,
        (
          least.0,
          (λ f. least.1.0 (ground arith), rw (other_column t k id i m li apart) least.1.1),
          λ j lj u.
              let (p, old) = was-Usable i j li u in
              rw (other_column t k id i m li apart, other_column t k id i j li p)
                (least.2 j lj old),
        ),
      )

  pub add_neighbor-IsValid : IsValid self with_column
  add_neighbor-IsValid = record {
    sound = record {
      recipients_distinct = v.sound.recipients_distinct;
      neighbors_distinct =
          distinct-update max_neighbors t.neighbor_ids k id v.sound.neighbors_distinct new;
      recipient_not_self = v.sound.recipient_not_self;
      neighbor_not_self = λ j lj u. ground (arith, v.sound.neighbor_not_self j lj);
      loop_free = column_loop_free;
    };
    routed = λ i li u. column-Routed i li (v.routed i li u);
  }

pub cleared_row :
    (t : Tables) (r : ℕ) (id : NodeId) (j : ℕ)
    → j < max_neighbors
    → ((add_recipient t r id).routing_table r j).hop_count ≡ invalid_path
cleared_row t r id j lj =
    rw (==_refl r) (ground (arith, for_each_lem max_neighbors invalidate (t.routing_table r) j))

-- The tables when a row is about to be written: only the row `r` may lack a route.
pub record IsPrepared (self : NodeId) (t : Tables) (r : ℕ) : Type 0 where
  pub sound : IsSound self t
  pub in_range : r < max_recipients
  pub others : (i : ℕ) → i < max_recipients → r ≢ i → t.recipient_ids i ≢ no_node_id → Routed t i
  pub taken : t.recipient_ids r ≢ no_node_id → Taken t.neighbor_ids (t.forwarding_table r)

-- A row that is held already has a route, and a free one needs none.
pub held-IsPrepared :
    (self : NodeId) (t : Tables) (r : ℕ) → r < max_recipients → IsValid self t → IsPrepared self t r
held-IsPrepared self t r lr v = record {
  sound = v.sound;
  in_range = lr;
  others = λ i li _ u. v.routed i li u;
  taken = λ used.
      let (k, e, least) = v.routed r lr used in
      subst (Taken t.neighbor_ids) (sym e) (least.0, least.1.0);
}

-- A new row has no path yet.
pub add_recipient-IsPrepared :
    (self : NodeId) (t : Tables) (r : ℕ) (id : NodeId)
    → r < max_recipients
    → id ≢ self
    → Absent max_recipients t.recipient_ids id
    → IsValid self t
    → IsPrepared self (add_recipient t r id) r
add_recipient-IsPrepared self t r id lr other new v = record {
  sound = record {
    recipients_distinct =
        distinct-update max_recipients t.recipient_ids r id v.sound.recipients_distinct new;
    neighbors_distinct = v.sound.neighbors_distinct;
    recipient_not_self = λ i li u. ground (arith, v.sound.recipient_not_self i li);
    neighbor_not_self = v.sound.neighbor_not_self;
    loop_free = λ i j li lj ui uj. elim (Bool-cases (r == i)) [
      | inl e ↦ rw e (λ n f. cc (cleared j lj))
      | inr e ↦ rw e (v.sound.loop_free i j li lj (ground arith) uj)
    ];
  };
  in_range = lr;
  others = λ i li p u. rw (==_ne r i p) (v.routed i li (ground arith));
  taken = λ used. ground arith;
}
  where
    cleared :
        (j : ℕ)
        → j < max_neighbors
        → (for_each max_neighbors invalidate (t.routing_table r) j).hop_count ≡ invalid_path
    cleared j lj = ground (arith, for_each_lem max_neighbors invalidate (t.routing_table r) j)
