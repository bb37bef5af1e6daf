-- ===== src/Routing/Indices.antt =====
-- `get_recipient_index` and `get_neighbor_index`: which index is returned, what is allocated, and
-- when the tables are full.
use projeto_rci.Base.{
  ℕ, ◌<◌, ◌≡◌, refl, ◌≢◌, ◌⊎◌, inl, inr, true, none, some, ◌==ℤ◌, ==ℤ_iff, first, first-some,
  first-none,
}
use projeto_rci.Node.{
  NodeId, NodeIndex, no_node_id, max_recipients, max_neighbors, Stop, Result, ok, stop,
  no_recipient_space, no_neighbor_space,
}
use projeto_rci.Routing.Tables.{
  Tables, find_recipient, find_neighbor, add_recipient, add_neighbor, new_recipient, new_neighbor,
  recipient_or_new, neighbor_or_new, get_recipient_index, get_neighbor_index,
}

-- No index below `n` holds the identifier.
abbrev pub Absent : ℕ → (ℕ → NodeId) → NodeId → Type 0
Absent n ids id = (k : ℕ) → k < n → ids k ≢ id

module _ (n : ℕ) (ids : ℕ → NodeId) (id : NodeId) where
  pub held : {k : ℕ} → first n 0 (λ i. ids i ==ℤ id) ≡ some k → (k < n) × (ids k ≡ id)
  held {k} e = let f = first-some n (λ i. ids i ==ℤ id) e in (f.0, (==ℤ_iff (ids k) id).0 f.1)

  pub absent : first n 0 (λ i. ids i ==ℤ id) ≡ none → Absent n ids id
  absent e k lt same =
      let miss = first-none n (λ i. ids i ==ℤ id) e k lt in
      let hit = (==ℤ_iff (ids k) id).1 same in cc

-- What a search that allocates may do: return the index of `id`, give it a free index, or stop
-- because there is none.
abbrev pub Allocates :
    (n : ℕ) (ids : Tables → ℕ → NodeId) (add : Tables → ℕ → NodeId → Tables) (full : Stop)
    → Tables
    → NodeId
    → Result (NodeIndex × Tables)
    → Type 0
Allocates n ids add full t id (ok (some k, t')) =
    (k < n)
    × (((ids t k ≡ id) × (t' ≡ t))
        ⊎ (Absent n (ids t) id × (ids t k ≡ no_node_id) × (t' ≡ add t k id)))
Allocates n ids add full t id (ok (none, t')) = ⊥
Allocates n ids add full t id (stop e) =
    (e ≡ full) × Absent n (ids t) id × Absent n (ids t) no_node_id

abbrev pub AllocatesRecipient : Tables → NodeId → Result (NodeIndex × Tables) → Type 0
AllocatesRecipient =
    Allocates max_recipients (λ t. t.recipient_ids) add_recipient no_recipient_space

abbrev pub AllocatesNeighbor : Tables → NodeId → Result (NodeIndex × Tables) → Type 0
AllocatesNeighbor = Allocates max_neighbors (λ t. t.neighbor_ids) add_neighbor no_neighbor_space

-- With `add_if_missing`, `get_recipient_index` returns the row of the identifier and changes
-- nothing, or, where it has none, gives it a free row; it stops exactly when it has none and no
-- row is free.
pub get_recipient_index-allocates :
    (t : Tables) (id : NodeId) → AllocatesRecipient t id (get_recipient_index t id true)
unfolding get_recipient_index
get_recipient_index-allocates t id = searched (find_recipient t id) refl
  where
    missing :
        (r : NodeIndex)
        → find_recipient t no_node_id ≡ r
        → Absent max_recipients t.recipient_ids id
        → AllocatesRecipient t id (new_recipient t id r)
    missing none e a = (refl, a, absent max_recipients t.recipient_ids no_node_id e)
    missing (some k) e a =
        let h = held max_recipients t.recipient_ids no_node_id e in (h.0, inr (a, h.1, refl))

    searched :
        (r : NodeIndex)
        → find_recipient t id ≡ r
        → AllocatesRecipient t id (recipient_or_new t id true r)
    searched none e =
        missing (find_recipient t no_node_id) refl (absent max_recipients t.recipient_ids id e)
    searched (some k) e = let h = held max_recipients t.recipient_ids id e in (h.0, inl (h.1, refl))

-- With `add_if_missing`, `get_neighbor_index` returns the column of the identifier and changes
-- nothing, or, where it has none, gives it a free column; it stops exactly when it has none and no
-- column is free.
pub get_neighbor_index-allocates :
    (t : Tables) (id : NodeId) → AllocatesNeighbor t id (get_neighbor_index t id true)
unfolding get_neighbor_index
get_neighbor_index-allocates t id = searched (find_neighbor t id) refl
  where
    missing :
        (r : NodeIndex)
        → find_neighbor t no_node_id ≡ r
        → Absent max_neighbors t.neighbor_ids id
        → AllocatesNeighbor t id (new_neighbor t id r)
    missing none e a = (refl, a, absent max_neighbors t.neighbor_ids no_node_id e)
    missing (some k) e a =
        let h = held max_neighbors t.neighbor_ids no_node_id e in (h.0, inr (a, h.1, refl))

    searched :
        (r : NodeIndex)
        → find_neighbor t id ≡ r
        → AllocatesNeighbor t id (neighbor_or_new t id true r)
    searched none e =
        missing (find_neighbor t no_node_id) refl (absent max_neighbors t.neighbor_ids id e)
    searched (some k) e = let h = held max_neighbors t.neighbor_ids id e in (h.0, inl (h.1, refl))
