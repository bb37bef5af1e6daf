-- ===== src/Ring/Messages.antt =====
-- What ring.c does with a message, by the role of the connection that it came from.
use projeto_rci.Base.{
  ℕ, Bool, true, false, not, ◌&&◌, ◌||◌, Option, none, some, [], ◌∷◌, pos, ◌==ℤ◌, ◌==◌,
  if◌then◌else◌,
}
use projeto_rci.Node.{NodeId, Text, codes, Node}
use projeto_rci.Machine.{
  Pointer, Socket, said, System, State, M, ◌>>=◌, ◌>>◌, pure, skip, gets, modify, lift, log, when,
  deref, connection, update_connection,
}
use projeto_rci.Routing.Path.{RoutePath, uninitialised}
use projeto_rci.Connections.{close_connection, find_connection_by_node_id}
use projeto_rci.Announce.{update_routing_and_announce_given_new_path, forward_message}
use projeto_rci.Wire.Print.{print_id_padded}
use projeto_rci.Wire.Scan.{scan_route_path, scan_route, scan_chat, scan_node, literal, read}
use projeto_rci.Wire.PathString.{parse_path}
use projeto_rci.Ring.Join.{
  is_connecting, is_null, socket_of, leave_ring, on_join_end, node_message,
  remove_neighbor_connection,
}
use projeto_rci.Ring.Broken.{connect_to_succ}

abbrev pub unless : Bool → M (Unit {0}) → M (Unit {0})
unless b m = if b then skip else m

abbrev pub set_node_id : ℕ → NodeId → M (Unit {0})
set_node_id i id = update_connection i (λ c. record c { node_id = id })

module _ (sys : System) (conn_printf : Socket → Text → M Bool) where
  -- A ROUTE message with a path that was read: the path begins at the neighbor.
  abbrev pub route_read : NodeId → NodeId → Option RoutePath → M (Unit {0})
  route_read neighbor_id recipient_id none = skip
  route_read neighbor_id recipient_id (some path) =
      let direct = path.hop_count ==ℤ pos 0 in
      let same = neighbor_id ==ℤ recipient_id in
      if same && not direct
      then skip
      else if not same && direct
      then skip
      else update_routing_and_announce_given_new_path conn_printf neighbor_id recipient_id
          (some path)

  unfoldable pub handle_route_path : Pointer → NodeId → NodeId → Text → M (Unit {0})
  handle_route_path conn neighbor_id recipient_id path_str = do
    i ← deref conn
    c ← connection i
    self ← gets (λ s. s.self.id)
    unless (not (neighbor_id ==ℤ c.node_id) || neighbor_id ==ℤ self) (do
      path ← lift (parse_path path_str [] 0 uninitialised.nodes)
      route_read neighbor_id recipient_id path)

  -- A ROUTE message without a path, of a neighbor that does not take this node's identifier.
  abbrev pub route_lost : Pointer → NodeId → NodeId → M (Unit {0})
  route_lost conn neighbor_id recipient_id = do
    i ← deref conn
    c ← connection i
    self ← gets (λ s. s.self.id)
    unless (not (neighbor_id ==ℤ c.node_id) || recipient_id ==ℤ self)
        (update_routing_and_announce_given_new_path conn_printf neighbor_id recipient_id none)

  unfoldable pub handle_route : Pointer → NodeId → NodeId → M (Unit {0})
  handle_route conn neighbor_id recipient_id = do
    self ← gets (λ s. s.self.id)
    unless (neighbor_id ==ℤ self) (route_lost conn neighbor_id recipient_id)

  unfoldable pub handle_chat : NodeId → NodeId → Text → M (Unit {0})
  handle_chat sender_id recipient_id text = do
    self ← gets (λ s. s.self.id)
    if recipient_id ==ℤ self
        then log (said sender_id text)
        else (forward_message conn_printf sender_id recipient_id text >> skip)

  -- The text of a CHAT message follows one space.
  abbrev pub chat_read : Option ((NodeId × NodeId) × Text) → M Bool
  chat_read none = pure false
  chat_read (some (ids, [])) = pure false
  chat_read (some ((sender_id, recipient_id), c ∷ text)) =
      if c == b' ' then (handle_chat sender_id recipient_id text >> pure true) else pure false

  abbrev pub no_path_read : Pointer → Text → Option (NodeId × NodeId) → M Bool
  no_path_read conn message (some (neighbor_id, recipient_id)) =
      handle_route conn neighbor_id recipient_id >> pure true
  no_path_read conn message none = chat_read (scan_chat message)

  abbrev pub path_read : Pointer → Text → Option (NodeId × NodeId × Text) → M Bool
  path_read conn message (some (neighbor_id, recipient_id, path_str)) =
      handle_route_path conn neighbor_id recipient_id path_str >> pure true
  path_read conn message none = no_path_read conn message (read scan_route message)

  unfoldable pub handle_message_from_any_node : Text → Pointer → M Bool
  handle_message_from_any_node message conn = path_read conn message (read scan_route_path message)

  -- The SUCC message has come; the join may end here.
  abbrev pub succ_known : Node → M (Unit {0})
  succ_known node = do
    modify (λ s. record s { second_succ = node; awaiting_succ = false })
    s ← gets (λ s. s)
    when (is_connecting s.connection_state && not s.awaiting_pred) (on_join_end sys)

  -- A SUCC message: who the second successor is.
  unfoldable pub handle_succ : Node → M (Unit {0})
  handle_succ node = do s ← gets (λ s. s); unless (node.id ==ℤ s.succ.id) (succ_known node)

  abbrev pub replace_succ : Node → State → State
  replace_succ node s = record s { second_succ = s.succ; succ = node }

  -- An ENTRY message from the successor: a node joins between this node and its successor.
  unfoldable pub handle_succ_entry : Node → M (Unit {0})
  handle_succ_entry node = do
    s ← gets (λ s. s)
    conn ← find_connection_by_node_id node.id
    if node.id ==ℤ s.self.id || not (is_null conn) || node.id ==ℤ s.second_succ.id
        then leave_ring sys
        else (do
          pred ← deref s.pred_conn
          socket ← socket_of pred
          told ← conn_printf socket (node_message (codes "SUCC ") (print_id_padded node.id) node)
          when told (do
            s ← gets (λ s. s)
            close_connection s.succ_conn
            remove_neighbor_connection conn_printf s.succ.id
            modify (replace_succ node)
            connect_to_succ sys conn_printf))

  abbrev pub succ_entry_read : Text → Option Node → M (Unit {0})
  succ_entry_read message (some node) = handle_succ_entry node
  succ_entry_read message none = do
    s ← gets (λ s. s)
    handle_message_from_any_node message s.succ_conn >> skip

  abbrev pub succ_read : Text → Option Node → M (Unit {0})
  succ_read message (some node) = handle_succ node
  succ_read message none = succ_entry_read message (read (scan_node (codes "ENTRY")) message)

  unfoldable pub handle_message_from_succ : Text → M (Unit {0})
  handle_message_from_succ message = succ_read message (read (scan_node (codes "SUCC")) message)

  abbrev pub is_entry : Option (Unit {0}) → Bool
  is_entry none = false
  is_entry (some u) = true

  unfoldable pub handle_message_from_pred : Text → M (Unit {0})
  handle_message_from_pred message = do
    s ← gets (λ s. s)
    if is_entry (read (literal (codes "ENTRY ")) message) && is_connecting s.connection_state
        then leave_ring sys
        else (handle_message_from_any_node message s.pred_conn >> skip)
