-- ===== src/Routing/Runs.antt =====
-- How a call of `update_routing_given_new_path` runs: the allocations, then the write of the entry.
use native.Mathlib.Decide.{ℕ_discrete}
use projeto_rci.Base.{update, ==_ne}
use projeto_rci.Base.{
  ℕ, ◌<◌, ◌≡◌, refl, ap, subst, ◌∙◌, ◌≢◌, ◌⊎◌, inl, inr, true, none, some, Bool, Option, ==_refl,
  ==ℤ_ne,
}
use projeto_rci.Node.{
  NodeId, NodeIndex, no_node_id, max_recipients, max_neighbors, Stop, Result, ok, stop, ◌>>=◌,
  no_recipient_space, no_neighbor_space,
}
use projeto_rci.Routing.Path.{RoutePath}
use projeto_rci.Routing.Tables.{
  Tables, add_recipient, add_neighbor, get_recipient_index, get_neighbor_index,
}
use projeto_rci.Routing.Update.{write_path, write_at, incoming, update_routing_given_new_path}
use projeto_rci.Routing.Indices.{
  Absent, AllocatesRecipient, AllocatesNeighbor, get_recipient_index-allocates,
  get_neighbor_index-allocates,
}
use projeto_rci.Routing.Entries.{entry, entry-add_neighbor, entry-add_recipient}
use projeto_rci.Routing.Invariant.{IsValid}
use projeto_rci.Routing.Allocate.{
  IsPrepared, held-IsPrepared, add_recipient-IsPrepared, add_neighbor-IsValid,
}
use projeto_rci.Routing.Route.{route, route-add_neighbor, route-add_recipient}

-- The tables when the entry is written: row and column are there, and nothing else is new.
pub record Prepares (self nid rid : NodeId) (t t₂ : Tables) (r c : ℕ) : Type 0 where
  pub prepared : IsPrepared self t₂ r
  pub in_range : c < max_neighbors
  pub row_held : t₂.recipient_ids r ≡ rid
  pub column_held : t₂.neighbor_ids c ≡ nid
  pub entries : (n id : NodeId) → n ≢ no_node_id → id ≢ no_node_id → entry t₂ n id ≡ entry t n id
  pub routes : (id : NodeId) → id ≢ no_node_id → route t₂ id ≡ route t id
  pub rows :
      (i : ℕ) → (t₂.recipient_ids i ≡ t.recipient_ids i) ⊎ Absent max_recipients t.recipient_ids rid
  pub columns :
      (j : ℕ)
      → (t₂.neighbor_ids j ≡ t.neighbor_ids j)
        ⊎ (Absent max_neighbors t.neighbor_ids nid × (t₂.neighbor_ids j ≡ nid))

-- The two ways to run out of space: all columns, or all rows, are taken by other nodes.
abbrev pub IsFull : NodeId → NodeId → Tables → Stop → Type 0
IsFull nid rid t e =
    ((e ≡ no_neighbor_space)
      × Absent max_neighbors t.neighbor_ids nid
      × Absent max_neighbors t.neighbor_ids no_node_id)
    ⊎ ((e ≡ no_recipient_space)
        × Absent max_recipients t.recipient_ids rid
        × Absent max_recipients t.recipient_ids no_node_id)

module _ (self nid rid : NodeId) (path_in : Option RoutePath) where
  abbrev pub Runs : Tables → Result (Bool × Tables) → Type 0
  Runs t (stop e) = IsFull nid rid t e
  Runs t (ok x) =
      (t₂ : Tables) × (r c : ℕ) × Prepares self nid rid t t₂ r c
      × (x ≡ write_path t₂ r c (incoming self path_in))

  module _ (t : Tables) (v : IsValid self t) (other : rid ≢ self) (other_n : nid ≢ self) where
    row-Runs :
        (t₁ : Tables) (c : ℕ)
        → IsValid self t₁
        → c < max_neighbors
        → t₁.neighbor_ids c ≡ nid
        → t₁.recipient_ids ≡ t.recipient_ids
        → ((n id : NodeId) → n ≢ no_node_id → id ≢ no_node_id → entry t₁ n id ≡ entry t n id)
        → ((id : NodeId) → id ≢ no_node_id → route t₁ id ≡ route t id)
        → ((j : ℕ)
            → (t₁.neighbor_ids j ≡ t.neighbor_ids j)
              ⊎ (Absent max_neighbors t.neighbor_ids nid × (t₁.neighbor_ids j ≡ nid)))
        → (x : Result (NodeIndex × Tables)) → AllocatesRecipient t₁ rid x
        → Runs t (x >>= λ y. write_at y.1 (some c) y.0 (incoming self path_in))
    row-Runs t₁ c v₁ lc col ids es rs cs (stop e) (f, a, b) = inr (f, rw (← ids) a, rw (← ids) b)
    row-Runs t₁ c v₁ lc col ids es rs cs (ok (none, t₂)) a = absurd a
    row-Runs t₁ c v₁ lc col ids es rs cs (ok (some r, t₂)) (lr, inl (e, same)) = (
      t₁,
      r,
      c,
      record {
        prepared = held-IsPrepared self t₁ r lr v₁;
        in_range = lc;
        row_held = e;
        column_held = col;
        entries = es;
        routes = rs;
        rows = λ i. inl (ap (λ f. f i) ids);
        columns = cs;
      },
      rw same refl,
    )
    row-Runs t₁ c v₁ lc col ids es rs cs (ok (some r, t₂)) (lr, inr (new, e, same)) = (
      add_recipient t₁ r rid,
      r,
      c,
      record {
        prepared = add_recipient-IsPrepared self t₁ r rid lr other new v₁;
        in_range = lc;
        row_held = rw (==_refl r) refl;
        column_held = col;
        entries = λ n id un ui.
            entry-add_recipient self t₁ v₁.sound r rid n id un ui lr e new ∙ es n id un ui;
        routes = λ id ui. route-add_recipient self t₁ v₁ r rid id ui lr e new ∙ rs id ui;
        rows = λ i. inr (rw (← ids) new);
        columns = cs;
      },
      rw same refl,
    )

    column-Runs :
        (x : Result (NodeIndex × Tables))
        → AllocatesNeighbor t nid x
        → Runs t (
            x >>= λ y.
            get_recipient_index y.1 rid true >>= λ z. write_at z.1 y.0 z.0 (incoming self path_in))
    column-Runs (stop e) a = inl a
    column-Runs (ok (none, t₁)) a = absurd a
    column-Runs (ok (some c, t₁)) (lc, inl (e, same)) = rw same (
        row-Runs t c v lc e refl (λ n id un ui. refl) (λ id ui. refl) (λ j. inl refl)
          (get_recipient_index t rid true) (get_recipient_index-allocates t rid))
    column-Runs (ok (some c, t₁)) (lc, inr (new, e, same)) = rw same (
        row-Runs (add_neighbor t c nid) c (add_neighbor-IsValid self t c nid e new other_n v) lc
          (rw (==_refl c) refl) refl
          (λ n id un ui. entry-add_neighbor self t v.sound c nid n id un ui lc e new)
          (λ id ui. route-add_neighbor self t v c nid id ui e)
          (λ j. elim (ℕ_discrete c j) [
            | yes p ↦
                inr (new, subst (λ x. update t.neighbor_ids c nid x ≡ nid) p (rw (==_refl c) refl))
            | no p ↦ inl (rw (==_ne c j p) refl)
          ])
          (get_recipient_index (add_neighbor t c nid) rid true)
          (get_recipient_index-allocates (add_neighbor t c nid) rid))

    pub update-Runs : Runs t (update_routing_given_new_path self nid rid path_in t)
    unfolding update_routing_given_new_path
    update-Runs =
        rw (==ℤ_ne rid self other, ==ℤ_ne nid self other_n)
          (column-Runs (get_neighbor_index t nid true) (get_neighbor_index-allocates t nid))
