-- ===== src/Routing/Route.antt =====
-- The route to a recipient: the neighbor that its messages go to, and the path behind it.
use native.Mathlib.Decide.{ℕ_discrete}
use projeto_rci.Base.{
  ℕ, ◌<◌, ◌≡◌, refl, sym, ap, subst, ◌∙◌, ◌≢◌, ◌↔◌, inl, inr, true, false, none, some, arith, Bool,
  Bool-cases, Option, not, ◌==◌, ==_ne, ==_refl, update, ◌==ℤ◌,
}
use projeto_rci.Node.{NodeId, NodeIndex, no_node_id, max_recipients, max_neighbors}
use projeto_rci.Routing.Path.{RoutePath, uninitialised, copy_path, are_paths_equal}
use projeto_rci.Routing.View.{Said, view, view-copy_path, are_paths_equal_iff}
use projeto_rci.Routing.Tables.{Tables, find_recipient, add_recipient, add_neighbor}
use projeto_rci.Routing.Update.{has_changed, shortest_in}
use projeto_rci.Routing.Closest.{Taken}
use projeto_rci.Routing.Indices.{Absent}
use projeto_rci.Routing.Entries.{
  Distinct, Stands, search-Stands, search-eq, Stands-update, moved, no_place,
}
use projeto_rci.Routing.Invariant.{IsValid}
use projeto_rci.Routing.Allocate.{other_column, distinct-update}

abbrev pub Hop : Type 0
Hop = Option (NodeId × Said)

abbrev pub hop_via : (ℕ → NodeId) → (ℕ → RoutePath) → NodeIndex → Hop
hop_via ids row none = none
hop_via ids row (some k) = some (ids k, view (row k))

abbrev pub route_of : Tables → NodeIndex → Hop
route_of t none = none
route_of t (some r) = hop_via t.neighbor_ids (t.routing_table r) (t.forwarding_table r)

-- The neighbor that messages for `id` are forwarded to, and its path, if there is one.
unfoldable pub route : Tables → NodeId → Hop
route t id = route_of t (find_recipient t id)

module _ (ids : ℕ → NodeId) (distinct : Distinct max_neighbors ids) (row row' : ℕ → RoutePath) where
  same_column :
      (a b : ℕ)
      → Taken ids (some a)
      → Taken ids (some b)
      → hop_via ids row (some a) ≡ hop_via ids row' (some b)
      → a ≡ b
  same_column a b ta tb e = distinct a b ta.0 tb.0 ta.1 (ground arith)

  pub has_changed_iff :
      (old new : NodeIndex)
      → Taken ids old
      → Taken ids new
      → (has_changed row' old (shortest_in row old) new ≡ true)
        ↔ (hop_via ids row old ≢ hop_via ids row' new)
  has_changed_iff none none to tn = (λ e. cc, λ h. absurd (h refl))
  has_changed_iff none (some b) to tn = (λ e f. cc, λ h. refl)
  has_changed_iff (some a) none to tn = (λ e f. cc, λ h. refl)
  has_changed_iff (some a) (some b) to tn = elim (ℕ_discrete a b) [
    | yes p ↦
        rw (subst (λ x. (a == x) ≡ true) p (==_refl a))
          (same_neighbor a b p (are_paths_equal (copy_path uninitialised (row a)) (row' b)) refl)
    | no p ↦ rw (==_ne a b p) (λ _ e. p (same_column a b to tn e), λ _. refl)
  ]
    where
      same_neighbor :
          (a b : ℕ)
          → a ≡ b
          → (q : Bool) → are_paths_equal (copy_path uninitialised (row a)) (row' b) ≡ q
          → (not q ≡ true) ↔ (hop_via ids row (some a) ≢ hop_via ids row' (some b))
      same_neighbor a b p true e =
          let said =
            sym (view-copy_path uninitialised (row a))
            ∙ (are_paths_equal_iff (copy_path uninitialised (row a)) (row' b)).0 e in
          (λ f. cc, λ h. absurd (h (λ i. some (ap ids p i, said i))))
      same_neighbor a b p false e = (
        λ _ f.
            let said : view (row a) ≡ view (row' b) = ground arith in
            let equal =
              (are_paths_equal_iff (copy_path uninitialised (row a)) (row' b)).1
                (view-copy_path uninitialised (row a) ∙ said) in
            cc,
        λ _. refl,
      )

-- A row that is not in use has no route, and a new column is nobody's next hop.
module _ (self : NodeId) (t : Tables) (v : IsValid self t) (k : ℕ) (new id : NodeId)
    (used : id ≢ no_node_id) where
  row-Stands : Stands max_recipients t.recipient_ids id (find_recipient t id)
  row-Stands = search-Stands max_recipients t.recipient_ids id

  pub route-add_neighbor :
      t.neighbor_ids k ≡ no_node_id → route (add_neighbor t k new) id ≡ route t id
  unfolding route
  route-add_neighbor free = go (find_recipient t id) row-Stands
    where
      go :
          (i : NodeIndex)
          → Stands max_recipients t.recipient_ids id i
          → route_of (add_neighbor t k new) i ≡ route_of t i
      go none s = refl
      go (some i) s =
          let (m, e, least) = v.routed i s.0 (λ z. used (sym s.1 ∙ z)) in
          let apart : k ≢ m = λ p. least.1.0 (subst (λ x. t.neighbor_ids x ≡ no_node_id) p free) in
          rw (e, ==_ne k m apart, other_column t k new i m s.0 apart) refl

  pub route-add_recipient :
      k < max_recipients
      → t.recipient_ids k ≡ no_node_id
      → Absent max_recipients t.recipient_ids new
      → route (add_recipient t k new) id ≡ route t id
  unfolding route
  route-add_recipient lk free a =
      ap (route_of (add_recipient t k new)) place ∙ go (find_recipient t id) row-Stands
    where
      place : find_recipient (add_recipient t k new) id ≡ moved k (new ==ℤ id) (find_recipient t id)
      place =
          search-eq max_recipients (update t.recipient_ids k new) id
            (moved k (new ==ℤ id) (find_recipient t id))
            (distinct-update max_recipients t.recipient_ids k new v.sound.recipients_distinct a)
            used
            (Stands-update max_recipients t.recipient_ids k new id (find_recipient t id) lk free
              used row-Stands)

      go :
          (i : NodeIndex)
          → Stands max_recipients t.recipient_ids id i
          → route_of (add_recipient t k new) (moved k (new ==ℤ id) i) ≡ route_of t i
      go i s = elim (Bool-cases (new ==ℤ id)) [
        | inl e ↦ rw (e, no_place max_recipients t.recipient_ids new id i a e s, ==_refl k) refl
        | inr e ↦ rw e (other i s)
      ]
        where
          other :
              (i : NodeIndex)
              → Stands max_recipients t.recipient_ids id i
              → route_of (add_recipient t k new) i ≡ route_of t i
          other none s = refl
          other (some i) s =
              rw
                (==_ne k i
                  (λ p. used (sym s.1 ∙ subst (λ x. t.recipient_ids x ≡ no_node_id) p free)))
                refl
