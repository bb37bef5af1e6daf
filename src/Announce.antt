-- ===== src/Announce.antt =====
-- The functions of routing.c that send messages. `conn_printf` is a parameter here: it calls back
-- into ring.c, which calls these functions.
pub mod Forward
pub mod Loop
pub mod Change
use projeto_rci.Base.{
  ℕ, Bool, true, false, not, Option, none, some, [], ◌∷◌, ◌++◌, ℤ, ◌==ℤ◌, if◌then◌else◌, update,
}
use projeto_rci.Node.{
  NodeId, NodeIndex, Text, codes, no_node_id, max_recipients, out_of_bounds, null_pointer,
}
use projeto_rci.Machine.{
  Socket, no_socket, max_connections, Connection, Pointer, State, M, ◌>>=◌, ◌>>◌, pure, skip, fail,
  gets, modify, lift, when, connection, for_loop, for_until,
}
use projeto_rci.Routing.Path.{RoutePath}
use projeto_rci.Routing.Tables.{Tables, get_recipient_index, get_neighbor_index}
use projeto_rci.Routing.Update.{update_routing_given_new_path}
use projeto_rci.Connections.{find_connection_by_node_id}
use projeto_rci.Wire.Print.{print_id, get_route_message}

-- `forwarding_table[recipient]`, as a pointer to the shortest path; a -1 indexes out of the table.
abbrev pub path_via : Tables → ℕ → NodeIndex → M (Option RoutePath)
path_via t recipient none = fail out_of_bounds
path_via t recipient (some k) = pure (some (t.routing_table recipient k))

-- `path` of `announce_new_path`
abbrev pub path_to_announce : Tables → NodeIndex → M (Option RoutePath)
path_to_announce t none = pure none
path_to_announce t (some r) = path_via t r (t.forwarding_table r)

abbrev pub path_to_send : Tables → ℕ → NodeIndex → Option RoutePath
path_to_send t r none = none
path_to_send t r (some k) = some (t.routing_table r k)

module _ (conn_printf : Socket → Text → M Bool) where
  abbrev pub send_if_open : Text → ℕ → M (Unit {0})
  send_if_open msg i = do
    c ← connection i
    when (not (c.socket ==ℤ no_socket)) (conn_printf c.socket msg >> skip)

  -- The message is made once, and written to every open connection.
  unfoldable pub announce_path : NodeId → Option RoutePath → M (Unit {0})
  announce_path recipient_id path = do
    s ← gets (λ s. s)
    route_msg ← lift (get_route_message s.self.id recipient_id path)
    for_loop max_connections 0 (send_if_open route_msg)

  unfoldable pub announce_new_path : NodeId → M (Unit {0})
  announce_new_path recipient_id = do
    s ← gets (λ s. s)
    (recipient, t) ← lift (get_recipient_index s.tables recipient_id false)
    path ← path_to_announce t recipient
    announce_path recipient_id path

  -- Whether the row's message was sent; nothing is sent for a free row.
  abbrev pub send_row : ℕ → ℕ → M Bool
  send_row conn r = do
    s ← gets (λ s. s)
    let recipient_id = s.tables.recipient_ids r
    if recipient_id ==ℤ no_node_id then pure true else (do
      route_msg ← lift (
          get_route_message s.self.id recipient_id
            (path_to_send s.tables r (s.tables.forwarding_table r)))
      c ← connection conn
      conn_printf c.socket route_msg)

  -- `false` is the -1 of a message that could not be sent.
  unfoldable pub send_shortest_paths : ℕ → M Bool
  send_shortest_paths conn = do
    s ← gets (λ s. s)
    c ← connection conn
    let id = print_id s.self.id
    sent ←
        conn_printf c.socket
          (codes "ROUTE " ++ (id ++ (codes " " ++ (id ++ (codes " " ++ (id ++ codes "\n"))))))
    if sent then for_until max_recipients 0 (send_row conn) else pure false

  unfoldable pub update_routing_and_announce_given_new_path :
      NodeId → NodeId → Option RoutePath → M (Unit {0})
  update_routing_and_announce_given_new_path neighbor_id recipient_id path = do
    s ← gets (λ s. s)
    (changed, t) ←
        lift (update_routing_given_new_path s.self.id neighbor_id recipient_id path s.tables)
    modify (λ s. record s { tables = t })
    when changed (announce_new_path recipient_id)

  abbrev pub drop_path : NodeId → ℕ → M (Unit {0})
  drop_path neighbor_id r = do
    recipient_id ← gets (λ s. s.tables.recipient_ids r)
    when (not (recipient_id ==ℤ no_node_id))
        (update_routing_and_announce_given_new_path neighbor_id recipient_id none)

  abbrev pub free_column : ℕ → State → State
  free_column k s = record s {
    tables = record (s.tables) { neighbor_ids = update s.tables.neighbor_ids k no_node_id };
  }

  abbrev pub remove_column : NodeId → NodeIndex → M (Unit {0})
  remove_column neighbor_id none = skip
  remove_column neighbor_id (some k) = do
    for_loop max_recipients 0 (drop_path neighbor_id)
    modify (free_column k)

  unfoldable pub remove_routing_neighbor : NodeId → M (Unit {0})
  remove_routing_neighbor neighbor_id = do
    t ← gets (λ s. s.tables)
    (neighbor, _) ← lift (get_neighbor_index t neighbor_id false)
    remove_column neighbor_id neighbor

  -- `neighbor_ids[forwarding_table[recipient]]`
  abbrev pub next_hop : Tables → NodeIndex → M NodeId
  next_hop t none = fail out_of_bounds
  next_hop t (some k) = pure (t.neighbor_ids k)

  -- The connection is dereferenced also where it is NULL, after a warning.
  abbrev pub chat_via : Text → Pointer → M Bool
  chat_via msg none = fail null_pointer
  chat_via msg (some conn) = connection conn >>= λ c. conn_printf c.socket msg

  abbrev pub chat_text : NodeId → NodeId → Text → Text
  chat_text sender_id recipient_id text =
      codes "CHAT "
      ++ (print_id sender_id
          ++ (codes " " ++ (print_id recipient_id ++ (codes " " ++ (text ++ codes "\n")))))

  abbrev pub forward_to : NodeId → NodeId → Text → NodeIndex → M Bool
  forward_to sender_id recipient_id text none = pure false
  forward_to sender_id recipient_id text (some r) = do
    t ← gets (λ s. s.tables)
    neighbor_id ← next_hop t (t.forwarding_table r)
    conn ← find_connection_by_node_id neighbor_id
    chat_via (chat_text sender_id recipient_id text) conn

  unfoldable pub forward_message : NodeId → NodeId → Text → M Bool
  forward_message sender_id recipient_id text = do
    t ← gets (λ s. s.tables)
    (recipient, _) ← lift (get_recipient_index t recipient_id false)
    forward_to sender_id recipient_id text recipient
