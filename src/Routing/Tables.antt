-- ===== src/Routing/Tables.antt =====
-- The tables of routing.c, their initialisation, and the allocation of their rows and columns.
use projeto_rci.Base.{ℕ, Bool, true, false, none, some, ◌==ℤ◌, update, first, for_each}
use projeto_rci.Node.{
  NodeId, NodeIndex, no_node_id, max_recipients, max_neighbors, Result, ok, stop,
  no_recipient_space, no_neighbor_space,
}
use projeto_rci.Routing.Path.{RoutePath, invalid_path}

pub record Tables : Type 0 where
  pub recipient_ids : ℕ → NodeId
  pub neighbor_ids : ℕ → NodeId
  pub routing_table : ℕ → ℕ → RoutePath
  pub forwarding_table : ℕ → NodeIndex

-- `path.hop_count = INVALID_PATH`
abbrev pub invalidate : RoutePath → RoutePath
invalidate p = record p { hop_count = invalid_path }

unfoldable pub init_routing : Tables → Tables
init_routing t = record t {
  recipient_ids = for_each max_recipients (λ _. no_node_id) t.recipient_ids;
  neighbor_ids = for_each max_neighbors (λ _. no_node_id) t.neighbor_ids;
}

abbrev pub find_recipient : Tables → NodeId → NodeIndex
find_recipient t id = first max_recipients 0 (λ i. t.recipient_ids i ==ℤ id)

abbrev pub find_neighbor : Tables → NodeId → NodeIndex
find_neighbor t id = first max_neighbors 0 (λ i. t.neighbor_ids i ==ℤ id)

-- Row `i` is given to `id` and cleared.
abbrev pub add_recipient : Tables → ℕ → NodeId → Tables
add_recipient t i id = record t {
  recipient_ids = update t.recipient_ids i id;
  routing_table = update t.routing_table i (for_each max_neighbors invalidate (t.routing_table i));
  forwarding_table = update t.forwarding_table i none;
}

-- Column `i` is given to `id` and cleared.
abbrev pub add_neighbor : Tables → ℕ → NodeId → Tables
add_neighbor t i id = record t {
  neighbor_ids = update t.neighbor_ids i id;
  routing_table =
      for_each max_recipients (λ row. update row i (invalidate (row i))) t.routing_table;
}

-- The second loop: the first free row is given to the identifier.
abbrev pub new_recipient : Tables → NodeId → NodeIndex → Result (NodeIndex × Tables)
new_recipient t id (some i) = ok (some i, add_recipient t i id)
new_recipient t id none = stop no_recipient_space

-- What follows the first loop, by its result.
abbrev pub recipient_or_new : Tables → NodeId → Bool → NodeIndex → Result (NodeIndex × Tables)
recipient_or_new t id add_if_missing (some i) = ok (some i, t)
recipient_or_new t id false none = ok (none, t)
recipient_or_new t id true none = new_recipient t id (find_recipient t no_node_id)

unfoldable pub get_recipient_index : Tables → NodeId → Bool → Result (NodeIndex × Tables)
get_recipient_index t id add_if_missing = recipient_or_new t id add_if_missing (find_recipient t id)

abbrev pub new_neighbor : Tables → NodeId → NodeIndex → Result (NodeIndex × Tables)
new_neighbor t id (some i) = ok (some i, add_neighbor t i id)
new_neighbor t id none = stop no_neighbor_space

abbrev pub neighbor_or_new : Tables → NodeId → Bool → NodeIndex → Result (NodeIndex × Tables)
neighbor_or_new t id add_if_missing (some i) = ok (some i, t)
neighbor_or_new t id false none = ok (none, t)
neighbor_or_new t id true none = new_neighbor t id (find_neighbor t no_node_id)

unfoldable pub get_neighbor_index : Tables → NodeId → Bool → Result (NodeIndex × Tables)
get_neighbor_index t id add_if_missing = neighbor_or_new t id add_if_missing (find_neighbor t id)
