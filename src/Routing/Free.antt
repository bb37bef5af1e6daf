-- ===== src/Routing/Free.antt =====
-- Freeing the column of a neighbor that no path goes over.
use native.Mathlib.Decide.{ℕ_discrete}
use projeto_rci.Base.{
  ℕ, ◌<◌, ◌≡◌, refl, sym, ap, subst, ◌∙◌, ◌≢◌, ◌⊎◌, inl, inr, none, some, arith, ==_ne, ==ℤ_ne,
  update,
}
use projeto_rci.Node.{NodeId, NodeIndex, no_node_id, max_recipients, max_neighbors}
use projeto_rci.Routing.Path.{RoutePath, invalid_path}
use projeto_rci.Routing.View.{view}
use projeto_rci.Routing.Tables.{Tables, find_recipient, find_neighbor}
use projeto_rci.Routing.Closest.{Usable}
use projeto_rci.Routing.Indices.{Absent}
use projeto_rci.Routing.Invariant.{IsValid, Routed}
use projeto_rci.Routing.Entries.{entry, said_at, said_at-none, search-eq, search-Stands, Stands}
use projeto_rci.Routing.Shrink.{Vacant, Shrinks}

-- `neighbor_ids[neighbor] = -1`
abbrev pub without_column : Tables → ℕ → Tables
without_column t k = record t { neighbor_ids = update t.neighbor_ids k no_node_id }

view-none : (p : RoutePath) → view p ≡ none → p.hop_count ≢ invalid_path → ⊥
view-none p e used = ground (arith, ==ℤ_ne p.hop_count invalid_path used)

module _ (self : NodeId) (t : Tables) (v : IsValid self t) where
  entry-at :
      (i j : ℕ)
      → i < max_recipients
      → j < max_neighbors
      → t.recipient_ids i ≢ no_node_id
      → t.neighbor_ids j ≢ no_node_id
      → entry t (t.neighbor_ids j) (t.recipient_ids i) ≡ view (t.routing_table i j)
  unfolding entry
  entry-at i j li lj ui uj =
      ap (λ r. said_at t r (find_neighbor t (t.neighbor_ids j)))
        (search-eq max_recipients t.recipient_ids (t.recipient_ids i) (some i)
          v.sound.recipients_distinct ui (li, refl))
      ∙ ap (said_at t (some i)) (
          search-eq max_neighbors t.neighbor_ids (t.neighbor_ids j) (some j)
            v.sound.neighbors_distinct uj (lj, refl))

  module _ (k : ℕ) (lk : k < max_neighbors) (vacant : Vacant t (t.neighbor_ids k)) where
    kept :
        (j : ℕ)
        → update t.neighbor_ids k no_node_id j ≢ no_node_id
        → (k ≢ j) × (t.neighbor_ids j ≢ no_node_id)
    kept j u = (λ e. u (ground arith), λ e. u (ground arith))

    unused :
        (i : ℕ)
        → i < max_recipients
        → t.recipient_ids i ≢ no_node_id
        → ¬ Usable t.neighbor_ids (t.routing_table i) k
    unused i li ui u =
        view-none (t.routing_table i k)
          (sym (entry-at i k li lk ui u.0) ∙ vacant (t.recipient_ids i) u.0 ui) u.1

    free-Routed :
        (i : ℕ)
        → i < max_recipients
        → t.recipient_ids i ≢ no_node_id
        → Routed t i
        → Routed (without_column t k) i
    free-Routed i li ui (m, e, least) =
        let apart : k ≢ m =
          λ p. unused i li ui (subst (Usable t.neighbor_ids (t.routing_table i)) (sym p) least.1) in
        (
          m,
          e,
          (
            least.0,
            (λ f. least.1.0 (ground arith), least.1.1),
            λ j lj u. least.2 j lj ((kept j u.0).1, u.1),
          ),
        )

    free-IsValid : IsValid self (without_column t k)
    free-IsValid = record {
      sound = record {
        recipients_distinct = v.sound.recipients_distinct;
        neighbors_distinct = λ i j li lj u e. ground (arith, v.sound.neighbors_distinct i j li lj);
        recipient_not_self = v.sound.recipient_not_self;
        neighbor_not_self = λ j lj u. ground (arith, v.sound.neighbor_not_self j lj);
        loop_free = λ i j li lj ui uj. v.sound.loop_free i j li lj ui (kept j uj).1;
      };
      routed = λ i li u. free-Routed i li u (v.routed i li u);
    }

    free-entry :
        (n id : NodeId)
        → n ≢ no_node_id
        → id ≢ no_node_id
        → (entry (without_column t k) n id ≡ none)
          ⊎ (entry (without_column t k) n id ≡ entry t n id)
    unfolding entry
    free-entry n id un ui = go (find_neighbor t n) (search-Stands max_neighbors t.neighbor_ids n)
      where
        at : NodeIndex → Type 0
        at c = entry (without_column t k) n id ≡ said_at t (find_recipient t id) c

        found :
            (c : NodeIndex) → Stands max_neighbors (update t.neighbor_ids k no_node_id) n c → at c
        found c s = ap (said_at t (find_recipient t id)) (
            search-eq max_neighbors (update t.neighbor_ids k no_node_id) n c
              free-IsValid.sound.neighbors_distinct un s)

        absent_now :
            (j : ℕ)
            → Stands max_neighbors t.neighbor_ids n (some j)
            → k ≡ j
            → Absent max_neighbors (update t.neighbor_ids k no_node_id) n
        absent_now j s p m lm e = elim (ℕ_discrete k m) [
          | yes q ↦ un (ground arith)
          | no q ↦
              let f : t.neighbor_ids m ≡ n = ground arith in
              q (
                p ∙ sym (v.sound.neighbors_distinct m j lm s.0 (λ z. un (sym f ∙ z)) (f ∙ sym s.1)))
        ]

        go :
            (c : NodeIndex)
            → Stands max_neighbors t.neighbor_ids n c
            → (entry (without_column t k) n id ≡ none)
              ⊎ (entry (without_column t k) n id ≡ said_at t (find_recipient t id) c)
        go none s = inr (found none (λ j lj e. s j lj (ground arith)))
        go (some j) s = elim (ℕ_discrete k j) [
          | yes p ↦ inl (found none (absent_now j s p) ∙ said_at-none t (find_recipient t id))
          | no p ↦ inr (found (some j) (s.0, rw (==_ne k j p) s.1))
        ]

    pub free-Shrinks : Shrinks self t (without_column t k)
    free-Shrinks = record {
      valid = free-IsValid;
      entries = free-entry;
      rows = λ i. inl refl;
      columns = λ j. elim (ℕ_discrete k j) [
        | yes p ↦ inr (λ id un ui. absurd (un (ground arith)))
        | no p ↦ inl (rw (==_ne k j p) refl)
      ];
    }
