-- ===== src/Routing/Write.antt =====
-- What the write of an entry does to the map from neighbors and recipients to paths.
use native.Mathlib.Decide.{ℕ_discrete}
use projeto_rci.Base.{
  ℕ, ◌<◌, ◌≡◌, refl, sym, ap, subst, ◌∙◌, ◌≢◌, ◌⊎◌, inl, inr, true, false, none, some, arith,
  if◌then◌else◌, Bool-cases, ◌&&◌, ◌==◌, ==_ne, ==_refl, update, ◌==ℤ◌, ==ℤ_iff, ==ℤ_ne, ℤ_discrete,
}
use projeto_rci.Node.{NodeId, NodeIndex, no_node_id, max_recipients, max_neighbors}
use projeto_rci.Routing.Path.{RoutePath, invalid_path}
use projeto_rci.Routing.View.{view, view_invalid, view-copy_path}
use projeto_rci.Routing.Tables.{Tables, find_recipient, find_neighbor}
use projeto_rci.Routing.Update.{choice, write_path, free_if_empty, new_row}
use projeto_rci.Routing.Closest.{Usable, Closest}
use projeto_rci.Routing.Entries.{entry, said_at, Stands, search-Stands, search-eq, said_at-none}
use projeto_rci.Routing.Invariant.{Avoids}
use projeto_rci.Routing.Allocate.{IsPrepared}
use projeto_rci.Routing.Preserve.{write_path-IsValid, choice-Closest}

-- A row that is freed holds no identifier; the others keep theirs.
Stands-free :
    (ids : ℕ → NodeId) (k : ℕ) (c : NodeIndex) (id : NodeId) (r : NodeIndex)
    → id ≢ no_node_id
    → ids k ≢ id
    → Stands max_recipients ids id r
    → Stands max_recipients (free_if_empty ids k c) id r
Stands-free ids k (some c) id r used apart s = s
Stands-free ids k none id none used apart s = λ j lt e. elim (ℕ_discrete k j) [
  | yes p ↦ used (sym e ∙ subst (λ x. update ids k no_node_id x ≡ no_node_id) p (rw (==_refl k)))
  | no p ↦ s j lt (ground arith)
]
Stands-free ids k none id (some j) used apart (lt, e) =
    (lt, rw (==_ne k j (λ p. apart (ap ids p ∙ e))) e)

module _ (self : NodeId) (t : Tables) (r c : ℕ) (p : RoutePath) (avoids : Avoids self p)
    (v : IsPrepared self t r) (lc : c < max_neighbors) (rid nid : NodeId)
    (row_held : t.recipient_ids r ≡ rid) (column_held : t.neighbor_ids c ≡ nid)
    (used_rid : rid ≢ no_node_id) (used_nid : nid ≢ no_node_id) where
  abbrev written : Tables
  written = (write_path t r c p).1

  -- The row that is written, seen from the neighbor `n`.
  row_said :
      (n : NodeId) (j : ℕ)
      → n ≢ no_node_id
      → j < max_neighbors
      → t.neighbor_ids j ≡ n
      → view (new_row t r c p j) ≡ (if nid ==ℤ n then view p else view (t.routing_table r j))
  row_said n j used lj e = elim (ℕ_discrete c j) [
    | yes q ↦
        let same : (nid ==ℤ n) ≡ true =
          (==ℤ_iff nid n).1 (sym column_held ∙ ap t.neighbor_ids q ∙ e) in
        rw (same, ← q, ==_refl c) (view-copy_path (t.routing_table r c) p)
    | no q ↦
        let differ : (nid ==ℤ n) ≡ false = ==ℤ_ne nid n (λ f. q (
          v.sound.neighbors_distinct c j lc lj (λ z. used_nid (sym column_held ∙ z))
            (column_held ∙ f ∙ sym e))) in
        rw (differ, ==_ne c j q) refl
  ]

  -- After the call, another recipient stands where it stood.
  pub other_row :
      (id : NodeId) → id ≢ no_node_id → rid ≢ id → find_recipient written id ≡ find_recipient t id
  unfolding write_path
  other_row id used apart =
      search-eq max_recipients written.recipient_ids id (find_recipient t id)
        (write_path-IsValid self t r c p avoids v).sound.recipients_distinct used
        (Stands-free t.recipient_ids r (choice t r c p) id (find_recipient t id) used
          (λ e. apart (sym row_held ∙ e)) (search-Stands max_recipients t.recipient_ids id))

  kept :
      (id : NodeId) (i n : NodeIndex)
      → rid ≢ id
      → Stands max_recipients t.recipient_ids id i
      → said_at written i n ≡ said_at t i n
  unfolding write_path
  kept id none n apart s = refl
  kept id (some i) none apart s = refl
  kept id (some i) (some j) apart s =
      rw (==_ne r i (λ q. apart (sym row_held ∙ ap t.recipient_ids q ∙ s.1)))

  -- The recipient's own row: in place, or freed because no path is left in it.
  pub own_row :
      ((k : ℕ) × (find_recipient written rid ≡ some r) × (choice t r c p ≡ some k))
      ⊎ ((find_recipient written rid ≡ none)
          × (choice t r c p ≡ none)
          × ((j : ℕ) → j < max_neighbors → ¬ Usable t.neighbor_ids (new_row t r c p) j))
  unfolding write_path
  own_row = go (choice t r c p) refl
    where
      used : t.recipient_ids r ≢ no_node_id
      used e = used_rid (sym row_held ∙ e)

      found :
          (i : NodeIndex)
          → Stands max_recipients (free_if_empty t.recipient_ids r (choice t r c p)) rid i
          → find_recipient written rid ≡ i
      found i s =
          search-eq max_recipients written.recipient_ids rid i
            (write_path-IsValid self t r c p avoids v).sound.recipients_distinct used_rid s

      freed : (j : ℕ) → j < max_recipients → update t.recipient_ids r no_node_id j ≢ rid
      freed j lt e = elim (ℕ_discrete r j) [
        | yes q ↦ used_rid (sym e ∙ rw (subst (λ x. (r == x) ≡ true) q (==_refl r)))
        | no q ↦
            let old : t.recipient_ids j ≡ rid = rw (==_ne r j q) at e in
            q (v.sound.recipients_distinct r j v.in_range lt used (row_held ∙ sym old))
      ]

      go :
          (q : NodeIndex)
          → choice t r c p ≡ q
          → ((k : ℕ) × (find_recipient written rid ≡ some r) × (choice t r c p ≡ some k))
            ⊎ ((find_recipient written rid ≡ none)
                × (choice t r c p ≡ none)
                × ((j : ℕ) → j < max_neighbors → ¬ Usable t.neighbor_ids (new_row t r c p) j))
      go (some k) e = inl (k, found (some r) (v.in_range, rw e row_held), e)
      go none e = inr (
        found none (rw e freed),
        e,
        subst (Closest t.neighbor_ids (new_row t r c p) max_neighbors) e
            (choice-Closest self t r c p avoids v used),
      )

  own_said :
      (n : NodeId) (j : NodeIndex)
      → n ≢ no_node_id
      → Stands max_neighbors t.neighbor_ids n j
      → said_at written (find_recipient written rid) j
        ≡ (if nid ==ℤ n then view p else said_at t (some r) j)
  unfolding write_path
  own_said n none used s =
      rw (==ℤ_ne nid n (λ e. s c lc (column_held ∙ e)))
        (said_at-none written (find_recipient written rid))
  own_said n (some j) used s = elim own_row [
    | inl (k, e, _) ↦ rw (e, ==_refl r) (row_said n j used s.0 s.1)
    | inr (e, _, empty) ↦ rw e (
        sym (
          view_invalid (new_row t r c p j) (unusable j s.0 (empty j s.0) (λ z. used (sym s.1 ∙ z))))
        ∙ row_said n j used s.0 s.1)
  ]
    where
      unusable :
          (j : ℕ)
          → j < max_neighbors
          → ¬ Usable t.neighbor_ids (new_row t r c p) j
          → t.neighbor_ids j ≢ no_node_id
          → (new_row t r c p j).hop_count ≡ invalid_path
      unusable j lt u taken = elim (ℤ_discrete (new_row t r c p j).hop_count invalid_path) [
        | yes e ↦ e
        | no e ↦ absurd (u (taken, e))
      ]

  pub recipient_found : find_recipient t rid ≡ some r
  recipient_found =
      search-eq max_recipients t.recipient_ids rid (some r) v.sound.recipients_distinct used_rid
        (v.in_range, row_held)

  entry_own :
      (n : NodeId)
      → n ≢ no_node_id
      → entry written n rid ≡ (if nid ==ℤ n then view p else entry t n rid)
  unfolding entry write_path
  entry_own n used =
      rw recipient_found
        (own_said n (find_neighbor t n) used (search-Stands max_neighbors t.neighbor_ids n))

  entry_other : (n id : NodeId) → id ≢ no_node_id → rid ≢ id → entry written n id ≡ entry t n id
  unfolding entry write_path
  entry_other n id used apart = rw (other_row id used apart) (
      kept id (find_recipient t id) (find_neighbor t n) apart
        (search-Stands max_recipients t.recipient_ids id))

  -- The entry of the recipient via the neighbor is the path, and no other entry changes.
  pub entry-write_path :
      (n id : NodeId)
      → n ≢ no_node_id
      → id ≢ no_node_id
      → entry written n id ≡ (if nid ==ℤ n && rid ==ℤ id then view p else entry t n id)
  entry-write_path n id used_n used_id = elim (Bool-cases (rid ==ℤ id)) [
    | inl e ↦ rw (e, ← (==ℤ_iff rid id).0 e) (entry_own n used_n ∙ ground arith)
    | inr e ↦ entry_other n id used_id (λ q. cc ((==ℤ_iff rid id).1 q, e)) ∙ rw e (ground arith)
  ]
