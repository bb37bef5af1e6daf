-- ===== src/Routing/Update.antt =====
-- `update_routing_given_new_path` of routing.c, in the steps that its comments name.
use projeto_rci.Base.{
  ℕ, zero, suc, Bool, true, false, not, ◌&&◌, ◌||◌, Option, none, some, pos_part, ltb_ℤ, ◌==ℤ◌,
  ◌==◌, if◌then◌else◌, update, first,
}
use projeto_rci.Node.{
  NodeId, NodeIndex, no_node_id, max_neighbors, Result, ok, ◌>>=◌, stop, out_of_bounds,
}
use projeto_rci.Routing.Path.{
  RoutePath, uninitialised, invalid, is_invalid, are_paths_equal, copy_path,
}
use projeto_rci.Routing.Tables.{Tables, get_recipient_index, get_neighbor_index}

abbrev pub is_found : NodeIndex → Bool
is_found none = false
is_found (some i) = true

-- The loop over the nodes of the path: does it cross this node?
unfoldable pub crosses : NodeId → RoutePath → Bool
crosses self p = is_found (first (pos_part p.hop_count) 0 (λ i. p.nodes i ==ℤ self))

-- The local `path`, from the argument `path_in`, which may be NULL.
unfoldable pub incoming : NodeId → Option RoutePath → RoutePath
incoming self none = invalid
incoming self (some p) =
    if is_invalid p then invalid else if crosses self p then invalid else copy_path uninitialised p

-- There is a neighbor in column `ni`, and a valid path via it.
abbrev pub usable : (ℕ → NodeId) → (ℕ → RoutePath) → ℕ → Bool
usable ids row ni = not (ids ni ==ℤ no_node_id) && not (is_invalid (row ni))

-- One round of the loop that finds the new shortest path.
abbrev pub closer : (ℕ → RoutePath) → ℕ → NodeIndex → Bool
closer row ni none = true
closer row ni (some best) = ltb_ℤ (row ni).hop_count (row best).hop_count

-- The value of `closest_neighbor` after `n` rounds of that loop.
unfoldable pub closest : (ℕ → NodeId) → (ℕ → RoutePath) → ℕ → NodeIndex
closest ids row zero = none
closest ids row (suc n) =
    let best = closest ids row n in if usable ids row n && closer row n best then some n else best

-- The old neighbor stays if there are several paths with the smallest hop count.
abbrev pub prefer_old : (ℕ → RoutePath) → NodeIndex → NodeIndex → NodeIndex
prefer_old row none new = new
prefer_old row (some old) none = none
prefer_old row (some old) (some new) =
    if (row old).hop_count ==ℤ (row new).hop_count then some old else some new

-- `old_shortest_path`
abbrev pub shortest_in : (ℕ → RoutePath) → NodeIndex → RoutePath
shortest_in row none = invalid
shortest_in row (some k) = copy_path uninitialised (row k)

abbrev pub index_eq : NodeIndex → NodeIndex → Bool
index_eq none none = true
index_eq none (some b) = false
index_eq (some a) none = false
index_eq (some a) (some b) = a == b

-- The value returned: does the shortest path differ from the old one?
abbrev pub has_changed : (ℕ → RoutePath) → NodeIndex → RoutePath → NodeIndex → Bool
has_changed row old old_path none = not (index_eq old none)
has_changed row old old_path (some k) =
    not (index_eq old (some k)) || not (are_paths_equal old_path (row k))

-- The row of the recipient once the entry is written.
abbrev pub new_row : Tables → ℕ → ℕ → RoutePath → ℕ → RoutePath
new_row t recipient neighbor path =
    let row = t.routing_table recipient in update row neighbor (copy_path (row neighbor) path)

-- `closest_neighbor` in the end
unfoldable pub choice : Tables → ℕ → ℕ → RoutePath → NodeIndex
choice t recipient neighbor path =
    let row = new_row t recipient neighbor path in
    prefer_old row (t.forwarding_table recipient) (closest t.neighbor_ids row max_neighbors)

-- The row is freed if it is empty.
abbrev pub free_if_empty : (ℕ → NodeId) → ℕ → NodeIndex → ℕ → NodeId
free_if_empty ids recipient none = update ids recipient no_node_id
free_if_empty ids recipient (some k) = ids

-- Everything below the two allocations.
unfoldable pub write_path : Tables → ℕ → ℕ → RoutePath → Bool × Tables
write_path t recipient neighbor path =
    let row = new_row t recipient neighbor path in
    let old = t.forwarding_table recipient in
    let chosen = choice t recipient neighbor path in
    (
      has_changed row old (shortest_in (t.routing_table recipient) old) chosen,
      record t {
        recipient_ids = free_if_empty t.recipient_ids recipient chosen;
        routing_table = update t.routing_table recipient row;
        forwarding_table = update t.forwarding_table recipient chosen;
      },
    )

-- A -1 would index out of the tables; with `add_if_missing` neither call returns it.
abbrev pub write_at : Tables → NodeIndex → NodeIndex → RoutePath → Result (Bool × Tables)
write_at t (some neighbor) (some recipient) path = ok (write_path t recipient neighbor path)
write_at t none recipient path = stop out_of_bounds
write_at t (some neighbor) none path = stop out_of_bounds

unfoldable pub update_routing_given_new_path :
    NodeId → NodeId → NodeId → Option RoutePath → Tables → Result (Bool × Tables)
update_routing_given_new_path self neighbor_id recipient_id path_in t =
    if recipient_id ==ℤ self
    then ok (false, t)
    else if neighbor_id ==ℤ self
    then ok (false, t)
    else (do
      (neighbor, t₁) ← get_neighbor_index t neighbor_id true
      (recipient, t₂) ← get_recipient_index t₁ recipient_id true
      write_at t₂ neighbor recipient (incoming self path_in))
