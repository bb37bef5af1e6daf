-- ===== src/Ring/NewNode.antt =====
-- What ring.c does with the messages of a node that has just connected, and `handle_message`, which
-- hands a message to the handler for its connection.
use projeto_rci.Base.{
  ℕ, Bool, false, not, ◌&&◌, ◌||◌, Option, none, some, ◌++◌, ◌==ℤ◌, if◌then◌else◌,
}
use projeto_rci.Node.{NodeId, Text, codes, Node, no_node_id, chord_assertion, pred_assertion}
use projeto_rci.Machine.{
  Socket, Pointer, System, State, M, ◌>>=◌, ◌>>◌, pure, skip, fail, gets, modify, when, deref,
  connection,
}
use projeto_rci.Timer.{cancel_timeout}
use projeto_rci.Connections.{
  close_connection, find_connection_by_socket, find_connection_by_node_id, pointer_eq,
}
use projeto_rci.Announce.{send_shortest_paths}
use projeto_rci.Wire.Print.{print_id}
use projeto_rci.Wire.Scan.{scan_node, scan_named, read}
use projeto_rci.Ring.Join.{
  is_connected, is_connecting, is_disconnected, is_null, socket_of, leave_ring, on_join_end,
  connect_succ, greet, node_message, remove_neighbor_connection,
}
use projeto_rci.Ring.Broken.{close_chord_to}
use projeto_rci.Ring.Messages.{
  set_node_id, handle_message_from_any_node, handle_message_from_succ, handle_message_from_pred,
}

abbrev pub close_new_node : M (Unit {0})
close_new_node = gets (λ s. s.new_node_conn) >>= close_connection

-- `pred_conn = new_node_conn; new_node_conn = NULL`
abbrev pub promote : State → State
promote s = record s { pred_conn = s.new_node_conn; new_node_conn = none }

abbrev pub succ_text : State → Text
succ_text s = node_message (codes "SUCC ") (print_id s.succ.id) s.succ

module _ (sys : System) (conn_printf : Socket → Text → M Bool) where
  -- The other node becomes the predecessor, too.
  abbrev pub promote_alone : M (Unit {0})
  promote_alone = do
    s ← gets (λ s. s)
    if is_null s.pred_conn then modify promote else fail pred_assertion

  abbrev pub greet_alone : Pointer → M (Unit {0})
  greet_alone none = leave_ring sys
  greet_alone (some conn) = do
    self ← gets (λ s. s.self)
    greeted ← greet conn_printf conn (codes "PRED " ++ (print_id self.id ++ codes "\n"))
    when greeted promote_alone

  -- This node is alone in its ring: the other one becomes its successor and its predecessor.
  unfoldable pub accept_alone : ℕ → Node → M (Unit {0})
  accept_alone conn node = do
    modify (λ s. record s { succ = node; second_succ = s.self })
    s ← gets (λ s. s)
    socket ← socket_of conn
    told ← conn_printf socket (succ_text s)
    when told (do succ_conn ← connect_succ sys; greet_alone succ_conn)

  unfoldable pub handle_entry_alone : ℕ → Node → M (Unit {0})
  handle_entry_alone conn node = do
    set_node_id conn node.id
    s ← gets (λ s. s)
    if is_disconnected s.connection_state
        then close_new_node
        else if node.id ==ℤ s.self.id
        then close_new_node
        else accept_alone conn node

  -- The old predecessor is told of the new node, which takes its place here.
  unfoldable pub replace_pred : M (Unit {0})
  replace_pred = do
    s ← gets (λ s. s)
    pred ← deref s.pred_conn
    c ← connection pred
    close_connection (some pred)
    remove_neighbor_connection conn_printf c.node_id
    modify promote

  -- The three writes of an entry into a larger ring: `false` if one of them fails.
  abbrev pub tell_entry : ℕ → Node → M Bool
  tell_entry conn node = do
    s ← gets (λ s. s)
    socket ← socket_of conn
    told ← conn_printf socket (succ_text s)
    if told
        then (do
          s ← gets (λ s. s)
          pred ← deref s.pred_conn
          pred_socket ← socket_of pred
          passed_on ←
              conn_printf pred_socket (node_message (codes "ENTRY ") (print_id node.id) node)
          if passed_on
              then (do
                s ← gets (λ s. s)
                conn ← deref s.new_node_conn
                send_shortest_paths conn_printf conn)
              else pure false)
        else pure false

  unfoldable pub handle_entry_in_ring : ℕ → Node → M (Unit {0})
  handle_entry_in_ring conn node = do
    set_node_id conn node.id
    told ← tell_entry conn node
    when told replace_pred

  -- An ENTRY message
  unfoldable pub handle_entry : Node → M (Unit {0})
  handle_entry node = do
    s ← gets (λ s. s)
    let state = s.connection_state
    if is_disconnected state || (is_connected state && s.succ.id ==ℤ s.self.id)
        then (deref s.new_node_conn >>= λ conn. handle_entry_alone conn node)
        else if is_connected state
        then (deref s.new_node_conn >>= λ conn. handle_entry_in_ring conn node)
        else close_new_node

  -- The PRED message has come; the join may end here.
  abbrev pub pred_known : M (Unit {0})
  pred_known = do
    modify (λ s. record s { awaiting_pred = false })
    s ← gets (λ s. s)
    when (is_connecting s.connection_state && not s.awaiting_succ) (on_join_end sys)

  -- The new predecessor is told who the successor is.
  unfoldable pub greet_pred : M (Unit {0})
  greet_pred = do
    s ← gets (λ s. s)
    pred ← deref s.pred_conn
    greeted ← greet conn_printf pred (succ_text s)
    when greeted pred_known

  abbrev pub stop_timer : State → State
  stop_timer s = record s { timer = cancel_timeout s.timer }

  -- A PRED message
  unfoldable pub handle_pred : NodeId → M (Unit {0})
  handle_pred id = do
    s ← gets (λ s. s)
    if is_disconnected s.connection_state then close_new_node else (do
      close_connection s.pred_conn
      close_chord_to sys conn_printf id
      s ← gets (λ s. s)
      conn ← deref s.new_node_conn
      set_node_id conn id
      modify promote
      modify stop_timer
      greet_pred)

  -- A CHORD message
  unfoldable pub handle_chord : NodeId → M (Unit {0})
  handle_chord id = do
    known ← find_connection_by_node_id id
    when (is_null known) (do
      s ← gets (λ s. s)
      conn ← deref s.new_node_conn
      set_node_id conn id
      sent ← send_shortest_paths conn_printf conn
      when sent (modify (λ s. record s { new_node_conn = none })))

  abbrev pub chord_read : Option NodeId → M (Unit {0})
  chord_read none = skip
  chord_read (some id) = handle_chord id

  abbrev pub pred_read : Text → Option NodeId → M (Unit {0})
  pred_read message none = chord_read (read (scan_named (codes "CHORD")) message)
  pred_read message (some id) = handle_pred id

  abbrev pub entry_read : Text → Option Node → M (Unit {0})
  entry_read message none = pred_read message (read (scan_named (codes "PRED")) message)
  entry_read message (some node) = handle_entry node

  unfoldable pub handle_message_from_new_node : Text → M (Unit {0})
  handle_message_from_new_node message =
      entry_read message (read (scan_node (codes "ENTRY")) message)

  -- `handle_message_from_chord` comes down to the messages of any node.
  unfoldable pub handle_message_from_chord : Text → Pointer → M (Unit {0})
  handle_message_from_chord message conn = do
    i ← deref conn
    c ← connection i
    if c.node_id ==ℤ no_node_id
        then fail chord_assertion
        else (handle_message_from_any_node sys conn_printf message conn >> skip)

  unfoldable pub handle_message : Socket → Text → M (Unit {0})
  handle_message socket message = do
    conn ← find_connection_by_socket socket
    s ← gets (λ s. s)
    if pointer_eq conn s.new_node_conn
        then handle_message_from_new_node message
        else if pointer_eq conn s.pred_conn
        then handle_message_from_pred sys conn_printf message
        else if pointer_eq conn s.succ_conn
        then handle_message_from_succ sys conn_printf message
        else handle_message_from_chord message conn
