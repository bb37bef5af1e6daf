-- ===== src/Ring/Broken.antt =====
-- What ring.c does when another node closes a connection.
use projeto_rci.Base.{ℕ, Bool, true, not, ◌&&◌, ◌||◌, none, some, ◌++◌, ◌==ℤ◌, if◌then◌else◌}
use projeto_rci.Node.{NodeId, Text, codes, no_node_id, chord_assertion}
use projeto_rci.Machine.{
  Socket, Pointer, System, State, M, ◌>>=◌, ◌>>◌, skip, fail, gets, modify, when, deref, connection,
}
use projeto_rci.Connections.{
  close_connection, find_connection_by_socket, find_connection_by_node_id, is_inbound_chord,
  pointer_eq,
}
use projeto_rci.Wire.Print.{print_id}
use projeto_rci.Ring.Join.{
  is_connected, is_null, socket_of, start_timeout, connect_succ, leave_ring, greet, node_message,
  remove_neighbor_connection,
}

-- Is there a chord to the node, which its new role makes superfluous?
abbrev pub is_chord : State → Pointer → Bool
is_chord s conn =
    not (is_null conn) && (pointer_eq conn s.outbound_chord_conn || is_inbound_chord s conn)

module _ (sys : System) (conn_printf : Socket → Text → M Bool) where
  unfoldable pub close_chord_to : NodeId → M (Unit {0})
  close_chord_to id = do
    conn ← find_connection_by_node_id id
    s ← gets (λ s. s)
    when (is_chord s conn) (close_connection conn >> remove_neighbor_connection conn_printf id)

  -- The connection to the new successor is made; tell it who its predecessor is.
  unfoldable pub greet_succ : Pointer → M (Unit {0})
  greet_succ none = leave_ring sys
  greet_succ (some conn) = do
    self ← gets (λ s. s.self)
    greet conn_printf conn (codes "PRED " ++ (print_id self.id ++ codes "\n")) >> skip

  unfoldable pub connect_to_succ : M (Unit {0})
  connect_to_succ = do conn ← connect_succ sys; greet_succ conn

  -- The predecessor is there, and is told who the new successor is.
  unfoldable pub succ_replaced : ℕ → M (Unit {0})
  succ_replaced pred = do
    succ ← gets (λ s. s.succ)
    socket ← socket_of pred
    told ← conn_printf socket (node_message (codes "SUCC ") (print_id succ.id) succ)
    when told (do succ ← gets (λ s. s.succ); close_chord_to succ.id; connect_to_succ)

  abbrev pub tell_pred : Pointer → M (Unit {0})
  tell_pred none = leave_ring sys
  tell_pred (some pred) = do
    c ← connection pred
    if c.node_id ==ℤ no_node_id then leave_ring sys else succ_replaced pred

  unfoldable pub handle_broken_succ_socket : M (Unit {0})
  handle_broken_succ_socket = do
    s ← gets (λ s. s)
    if not (is_connected s.connection_state) then leave_ring sys else (do
      modify (λ s. record s { awaiting_succ = true; succ = s.second_succ })
      s ← gets (λ s. s)
      if s.succ.id ==ℤ s.self.id then skip else tell_pred s.pred_conn)

  unfoldable pub handle_broken_pred_socket : M (Unit {0})
  handle_broken_pred_socket = do
    s ← gets (λ s. s)
    if not (is_connected s.connection_state) then leave_ring sys else (do
      pred ← deref s.pred_conn
      c ← connection pred
      remove_neighbor_connection conn_printf c.node_id
      modify (λ s. record s { pred_conn = none })
      s ← gets (λ s. s)
      if s.self.id ==ℤ s.second_succ.id then skip else start_timeout sys 1000)

  -- `handle_broken_chord_socket` only logs; a chord's node must be known.
  abbrev pub broken_chord : Pointer → M (Unit {0})
  broken_chord conn = do
    i ← deref conn
    c ← connection i
    if c.node_id ==ℤ no_node_id then fail chord_assertion else skip

  abbrev pub broken_role : State → Pointer → M (Unit {0})
  broken_role s conn =
      if pointer_eq conn s.new_node_conn
      then modify (λ s. record s { new_node_conn = none })
      else if pointer_eq conn s.pred_conn
      then handle_broken_pred_socket
      else if pointer_eq conn s.succ_conn
      then handle_broken_succ_socket
      else broken_chord conn

  unfoldable pub handle_broken_socket : Socket → M (Unit {0})
  handle_broken_socket socket = do
    conn ← find_connection_by_socket socket
    s ← gets (λ s. s)
    broken_role s conn
    i ← deref conn
    c ← connection i
    close_connection (some i)
    remove_neighbor_connection conn_printf c.node_id
