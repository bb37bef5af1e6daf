-- ===== src/Routing/Entries.antt =====
-- The tables as a map: what is known of the path from a neighbor to a recipient. The allocations
-- do not change it.
use native.Mathlib.Decide.{ℕ_discrete}
use projeto_rci.Base.{
  ℕ, ◌<◌, ◌≡◌, refl, sym, ap, subst, ◌∙◌, ◌≢◌, inl, inr, true, false, none, some, arith, Bool,
  Bool-cases, ==_ne, update, ◌==ℤ◌, ==ℤ_iff, ==ℤ_ne, first, first-eq_some, first-eq_none,
}
use projeto_rci.Node.{NodeId, NodeIndex, no_node_id, max_recipients, max_neighbors}
use projeto_rci.Routing.View.{Said, view, view_invalid}
use projeto_rci.Routing.Tables.{Tables, find_recipient, find_neighbor, add_recipient, add_neighbor}
use projeto_rci.Routing.Indices.{Absent, held, absent}
use projeto_rci.Routing.Invariant.{IsSound}
use projeto_rci.Routing.Allocate.{distinct-update, cleared_column, other_column, cleared_row}

abbrev pub said_at : Tables → NodeIndex → NodeIndex → Said
said_at t none c = none
said_at t (some r) none = none
said_at t (some r) (some c) = view (t.routing_table r c)

-- What the tables hold of the path from neighbor `n` to recipient `r`.
unfoldable pub entry : Tables → NodeId → NodeId → Said
entry t n r = said_at t (find_recipient t r) (find_neighbor t n)

-- The identifiers of taken entries are distinct.
abbrev pub Distinct : ℕ → (ℕ → NodeId) → Type 0
Distinct n ids = (i j : ℕ) → i < n → j < n → ids i ≢ no_node_id → ids i ≡ ids j → i ≡ j

module _ (n : ℕ) (ids : ℕ → NodeId) (id : NodeId) where
  -- Where an identifier stands.
  abbrev pub Stands : NodeIndex → Type 0
  Stands none = Absent n ids id
  Stands (some k) = (k < n) × (ids k ≡ id)

  pub search-Stands : Stands (first n 0 (λ i. ids i ==ℤ id))
  search-Stands = go (first n 0 (λ i. ids i ==ℤ id)) refl
    where
      go : (r : NodeIndex) → first n 0 (λ i. ids i ==ℤ id) ≡ r → Stands r
      go none e = absent n ids id e
      go (some k) e = held n ids id e

  -- So the search finds the place.
  pub search-eq :
      (r : NodeIndex)
      → Distinct n ids
      → id ≢ no_node_id
      → Stands r
      → first n 0 (λ i. ids i ==ℤ id) ≡ r
  search-eq none d used s = first-eq_none n _ (λ k lt. ==ℤ_ne (ids k) id (s k lt))
  search-eq (some k) d used (lt, e) = first-eq_some n _ k lt ((==ℤ_iff (ids k) id).1 e) (λ m lm.
      ==ℤ_ne (ids m) id
        (λ f. absurd (omega (arith, d m k (omega arith) lt (λ z. used (sym f ∙ z)) (f ∙ sym e)))))

-- Where an identifier stands once `new` is put at the free place `k`.
abbrev pub moved : ℕ → Bool → NodeIndex → NodeIndex
moved k true r = some k
moved k false r = r

pub Stands-update :
    (n : ℕ) (ids : ℕ → NodeId) (k : ℕ) (new id : NodeId) (r : NodeIndex)
    → k < n
    → ids k ≡ no_node_id
    → id ≢ no_node_id
    → Stands n ids id r
    → Stands n (update ids k new) id (moved k (new ==ℤ id) r)
Stands-update n ids k new id r lk free used s = elim (Bool-cases (new ==ℤ id)) [
  | inl e ↦ rw e (lk, ground (arith, (==ℤ_iff new id).0 e))
  | inr e ↦ rw e (other r s e)
]
  where
    other :
        (r : NodeIndex)
        → Stands n ids id r
        → (new ==ℤ id) ≡ false
        → Stands n (update ids k new) id r
    other none s e = λ j lt f. elim (ℕ_discrete k j) [
      | yes p ↦ let g : new ≡ id = ground arith in cc ((==ℤ_iff new id).1 g, e)
      | no p ↦ s j lt (ground arith)
    ]
    other (some j) s e =
        let apart : k ≢ j = λ p. used (sym s.1 ∙ subst (λ x. ids x ≡ no_node_id) p free) in
        (s.0, rw (==_ne k j apart) s.1)

-- An identifier that stands nowhere, against the place where another search puts it.
pub no_place :
    (n : ℕ) (ids : ℕ → NodeId) (new id : NodeId) (r : NodeIndex)
    → Absent n ids new
    → (new ==ℤ id) ≡ true
    → Stands n ids id r
    → r ≡ none
no_place n ids new id none a e s = refl
no_place n ids new id (some k) a e (lt, f) = absurd (a k lt (f ∙ sym ((==ℤ_iff new id).0 e)))

pub said_at-none : (t : Tables) (r : NodeIndex) → said_at t r none ≡ none
said_at-none t none = refl
said_at-none t (some r) = refl

module _ (self : NodeId) (t : Tables) (v : IsSound self t) (k : ℕ) (new n r : NodeId)
    (used_n : n ≢ no_node_id) (used_r : r ≢ no_node_id) where
  abbrev row : NodeIndex
  row = find_recipient t r

  abbrev column : NodeIndex
  column = find_neighbor t n

  row-Stands : Stands max_recipients t.recipient_ids r row
  row-Stands = search-Stands max_recipients t.recipient_ids r

  column-Stands : Stands max_neighbors t.neighbor_ids n column
  column-Stands = search-Stands max_neighbors t.neighbor_ids n

  module _ (lk : k < max_neighbors) (free : t.neighbor_ids k ≡ no_node_id)
      (a : Absent max_neighbors t.neighbor_ids new) where
    new_column : find_neighbor (add_neighbor t k new) n ≡ moved k (new ==ℤ n) column
    new_column =
        search-eq max_neighbors (update t.neighbor_ids k new) n (moved k (new ==ℤ n) column)
          (distinct-update max_neighbors t.neighbor_ids k new v.neighbors_distinct a) used_n
          (Stands-update max_neighbors t.neighbor_ids k new n column lk free used_n column-Stands)

    said_new_column :
        (i c : NodeIndex)
        → Stands max_recipients t.recipient_ids r i
        → Stands max_neighbors t.neighbor_ids n c
        → said_at (add_neighbor t k new) i (moved k (new ==ℤ n) c) ≡ said_at t i c
    said_new_column none c si sc = refl
    said_new_column (some i) c si sc = elim (Bool-cases (new ==ℤ n)) [
      | inl e ↦
          rw (e, no_place max_neighbors t.neighbor_ids new n c a e sc)
            (view_invalid ((add_neighbor t k new).routing_table i k)
              (cleared_column t k new i k si.0 refl))
      | inr e ↦ rw e (same c sc)
    ]
      where
        same :
            (c : NodeIndex)
            → Stands max_neighbors t.neighbor_ids n c
            → said_at (add_neighbor t k new) (some i) c ≡ said_at t (some i) c
        same none s = refl
        same (some j) s = ap view (
            other_column t k new i j si.0
              (λ p. used_n (sym s.1 ∙ subst (λ x. t.neighbor_ids x ≡ no_node_id) p free)))

    -- A new column holds no path.
    pub entry-add_neighbor : entry (add_neighbor t k new) n r ≡ entry t n r
    unfolding entry
    entry-add_neighbor =
        ap (said_at (add_neighbor t k new) row) new_column
        ∙ said_new_column row column row-Stands column-Stands

  module _ (lk : k < max_recipients) (free : t.recipient_ids k ≡ no_node_id)
      (a : Absent max_recipients t.recipient_ids new) where
    new_row : find_recipient (add_recipient t k new) r ≡ moved k (new ==ℤ r) row
    new_row =
        search-eq max_recipients (update t.recipient_ids k new) r (moved k (new ==ℤ r) row)
          (distinct-update max_recipients t.recipient_ids k new v.recipients_distinct a) used_r
          (Stands-update max_recipients t.recipient_ids k new r row lk free used_r row-Stands)

    said_new_row :
        (i c : NodeIndex)
        → Stands max_recipients t.recipient_ids r i
        → Stands max_neighbors t.neighbor_ids n c
        → said_at (add_recipient t k new) (moved k (new ==ℤ r) i) c ≡ said_at t i c
    said_new_row i none si sc =
        said_at-none (add_recipient t k new) (moved k (new ==ℤ r) i) ∙ sym (said_at-none t i)
    said_new_row i (some j) si sc = elim (Bool-cases (new ==ℤ r)) [
      | inl e ↦
          rw (e, no_place max_recipients t.recipient_ids new r i a e si)
            (view_invalid ((add_recipient t k new).routing_table k j) (cleared_row t k new j sc.0))
      | inr e ↦ rw e (same i si)
    ]
      where
        same :
            (i : NodeIndex)
            → Stands max_recipients t.recipient_ids r i
            → said_at (add_recipient t k new) i (some j) ≡ said_at t i (some j)
        same none s = refl
        same (some i) s =
            rw (
              ==_ne k i
                (λ p. used_r (sym s.1 ∙ subst (λ x. t.recipient_ids x ≡ no_node_id) p free)))

    -- A new row holds no path.
    pub entry-add_recipient : entry (add_recipient t k new) n r ≡ entry t n r
    unfolding entry
    entry-add_recipient =
        ap (λ i. said_at (add_recipient t k new) i column) new_row
        ∙ said_new_row row column row-Stands column-Stands
