-- ===== src/Routing/Preserve.antt =====
-- `update_routing_given_new_path` and the well-formedness of the tables.
use native.Mathlib.Decide.{ℕ_discrete}
use projeto_rci.Base.{
  ℕ, ◌<◌, ◌≡◌, refl, sym, subst, ◌∙◌, ◌≢◌, inl, inr, true, none, some, arith, Bool, Bool-cases,
  ◌==◌, ==_ne, ==_refl, update, Option, ◌==ℤ◌, ==ℤ_iff,
}
use projeto_rci.Node.{
  NodeId, NodeIndex, no_node_id, max_recipients, max_neighbors, Result, ok, stop, ◌>>=◌,
}
use projeto_rci.Routing.Path.{RoutePath}
use projeto_rci.Routing.Tables.{Tables, add_recipient, get_recipient_index, get_neighbor_index}
use projeto_rci.Routing.Update.{
  choice, write_path, write_at, incoming, closest, free_if_empty, new_row,
  update_routing_given_new_path,
}
use projeto_rci.Routing.Closest.{Closest, closest-Closest, prefer_old-Closest}
use projeto_rci.Routing.Indices.{
  AllocatesRecipient, AllocatesNeighbor, get_recipient_index-allocates,
  get_neighbor_index-allocates,
}
use projeto_rci.Routing.Invariant.{IsValid, Routed, Avoids, copy_path-Avoids, incoming-Avoids}
use projeto_rci.Routing.Allocate.{
  IsPrepared, held-IsPrepared, add_recipient-IsPrepared, add_neighbor-IsValid,
}

-- A row that is in use after the call was in use before it, and keeps its identifier.
still_held :
    (ids : ℕ → NodeId) (r : ℕ) (c : NodeIndex) (i : ℕ)
    → free_if_empty ids r c i ≢ no_node_id
    → free_if_empty ids r c i ≡ ids i
still_held ids r none i h = ground arith
still_held ids r (some k) i h = refl

-- The row that is written is in use after the call only if a neighbor was chosen.
chosen :
    (ids : ℕ → NodeId) (r : ℕ) (c : NodeIndex)
    → free_if_empty ids r c r ≢ no_node_id
    → (k : ℕ) × (c ≡ some k)
chosen ids r none h = absurd (h (ground arith))
chosen ids r (some k) h = (k, refl)

module _ (self : NodeId) (t : Tables) (r c : ℕ) (p : RoutePath) (avoids : Avoids self p)
    (v : IsPrepared self t r) where
  abbrev after : Tables
  unfolding write_path
  after = (write_path t r c p).1

  new_row-Avoids :
      (j : ℕ) → (c ≢ j → Avoids self (t.routing_table r j)) → Avoids self (new_row t r c p j)
  new_row-Avoids j old = elim (Bool-cases (c == j)) [
    | inl e ↦ rw e (copy_path-Avoids self (t.routing_table r c) p avoids)
    | inr e ↦ rw e (old (ground arith))
  ]

  pub choice-Closest :
      t.recipient_ids r ≢ no_node_id
      → Closest t.neighbor_ids (new_row t r c p) max_neighbors (choice t r c p)
  unfolding choice
  choice-Closest used =
      prefer_old-Closest t.neighbor_ids (new_row t r c p) (t.forwarding_table r)
        (closest t.neighbor_ids (new_row t r c p) max_neighbors) (v.taken used)
        (closest-Closest t.neighbor_ids (new_row t r c p) max_neighbors)

  after-Routed : after.recipient_ids r ≢ no_node_id → Routed after r
  unfolding write_path
  after-Routed u =
      let used = λ (x : t.recipient_ids r ≡ no_node_id).
        u (still_held t.recipient_ids r (choice t r c p) r u ∙ x) in
      let (k, e) = chosen t.recipient_ids r (choice t r c p) u in
      rw (==_refl r) (
        k,
        e,
        subst (Closest t.neighbor_ids (new_row t r c p) max_neighbors) e (choice-Closest used),
      )

  row_loop_free :
      (i j : ℕ)
      → i < max_recipients
      → j < max_neighbors
      → t.recipient_ids i ≢ no_node_id
      → t.neighbor_ids j ≢ no_node_id
      → Avoids self (update t.routing_table r (new_row t r c p) i j)
  row_loop_free i j li lj ui uj = elim (ℕ_discrete r i) [
    | yes e ↦
        let here = new_row-Avoids j (λ _.
          subst (λ x. Avoids self (t.routing_table x j)) (sym e)
            (v.sound.loop_free i j li lj ui uj)) in
        rw (subst (λ x. (r == x) ≡ true) e (==_refl r)) here
    | no e ↦ rw (==_ne r i e) (v.sound.loop_free i j li lj ui uj)
  ]

  pub write_path-IsValid : IsValid self (write_path t r c p).1
  unfolding write_path
  write_path-IsValid = record {
    sound = record {
      recipients_distinct = λ i j li lj u e.
          v.sound.recipients_distinct i j li lj (λ x. u (held i u ∙ x))
            (sym (held i u) ∙ e ∙ held j (λ x. u (e ∙ x)));
      neighbors_distinct = v.sound.neighbors_distinct;
      recipient_not_self =
          λ i li u x. v.sound.recipient_not_self i li (λ y. u (held i u ∙ y)) (sym (held i u) ∙ x);
      neighbor_not_self = v.sound.neighbor_not_self;
      loop_free = λ i j li lj ui uj. row_loop_free i j li lj (λ y. ui (held i ui ∙ y)) uj;
    };
    routed = λ i li u. elim (ℕ_discrete r i) [
      | yes e ↦ subst (λ x. after.recipient_ids x ≢ no_node_id → Routed after x) e after-Routed u
      | no e ↦ rw (==_ne r i e) (v.others i li e (λ y. u (held i u ∙ y)))
    ];
  }
    where
      held :
          (i : ℕ) → after.recipient_ids i ≢ no_node_id → after.recipient_ids i ≡ t.recipient_ids i
      held = still_held t.recipient_ids r (choice t r c p)

-- What a call leaves behind, if it returns.
abbrev pub Leaves : (Tables → Type 0) → Result (Bool × Tables) → Type 0
Leaves P (ok (b, t)) = P t
Leaves P (stop e) = Unit

module _ (self neighbor_id recipient_id : NodeId) (path_in : Option RoutePath) where
  from_recipient :
      (t : Tables) (c : ℕ)
      → recipient_id ≢ self
      → IsValid self t
      → (r : Result (NodeIndex × Tables)) → AllocatesRecipient t recipient_id r
      → Leaves (IsValid self) (r >>= λ x. write_at x.1 (some c) x.0 (incoming self path_in))
  from_recipient t c other v (stop e) a = tt
  from_recipient t c other v (ok (none, t')) a = absurd a
  from_recipient t c other v (ok (some r, t')) (lr, inl (e, same)) = rw same (
      write_path-IsValid self t r c (incoming self path_in) (incoming-Avoids self path_in)
        (held-IsPrepared self t r lr v))
  from_recipient t c other v (ok (some r, t')) (lr, inr (new, e, same)) = rw same (
      write_path-IsValid self (add_recipient t r recipient_id) r c (incoming self path_in)
        (incoming-Avoids self path_in)
        (add_recipient-IsPrepared self t r recipient_id lr other new v))

  from_neighbor :
      (t : Tables)
      → recipient_id ≢ self
      → neighbor_id ≢ self
      → IsValid self t
      → (r : Result (NodeIndex × Tables)) → AllocatesNeighbor t neighbor_id r
      → Leaves (IsValid self) (
          r >>= λ x. get_recipient_index x.1 recipient_id true >>= λ y.
          write_at y.1 x.0 y.0 (incoming self path_in))
  from_neighbor t other apart v (stop e) a = tt
  from_neighbor t other apart v (ok (none, t')) a = absurd a
  from_neighbor t other apart v (ok (some c, t')) (lc, inl (e, same)) =
      from_recipient t' c other (rw same v) (get_recipient_index t' recipient_id true)
        (get_recipient_index-allocates t' recipient_id)
  from_neighbor t other apart v (ok (some c, t')) (lc, inr (new, e, same)) =
      from_recipient t' c other (rw same (add_neighbor-IsValid self t c neighbor_id e new apart v))
        (get_recipient_index t' recipient_id true) (get_recipient_index-allocates t' recipient_id)

  -- From well-formed tables, a call of `update_routing_given_new_path` that returns leaves
  -- well-formed tables: the identifiers are distinct, every recipient has a route over a shortest
  -- path, and no stored path crosses this node. It holds for any arguments, also for the
  -- identifier -1.
  pub update_routing-IsValid :
      (t : Tables)
      → IsValid self t
      → Leaves
          (IsValid self)
          (update_routing_given_new_path self neighbor_id recipient_id path_in t)
  unfolding update_routing_given_new_path
  update_routing-IsValid t v = elim (Bool-cases (recipient_id ==ℤ self)) [
    | inl e ↦ rw e v
    | inr e ↦ elim (Bool-cases (neighbor_id ==ℤ self)) [
      | inl f ↦ rw (e, f) v
      | inr f ↦
          rw (e, f)
            (from_neighbor t (λ x. cc ((==ℤ_iff recipient_id self).1 x, e))
              (λ x. cc ((==ℤ_iff neighbor_id self).1 x, f)) v
              (get_neighbor_index t neighbor_id true) (get_neighbor_index-allocates t neighbor_id))
    ]
  ]
