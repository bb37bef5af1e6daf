-- ===== src/Ring/Kept.antt =====
-- The functions of connections.c, and those of ring.c below the handlers, keep to every frame.
use projeto_rci.Base.{ℕ, ◌≤◌, ◌≡◌, Bool, Option, none, some}
use projeto_rci.Node.{NodeId, NodeIndex, Text}
use projeto_rci.Machine.{Socket, Pointer, System, State, M, connected}
use projeto_rci.Halts.{halting}
use projeto_rci.Failures.{failures}
use projeto_rci.Frame.{Frame, After, After-compose, Keeps, keeps}
use projeto_rci.Connections.{
  close_connection, find_connection_by_socket, find_connection_by_node_id, write_message,
}
use projeto_rci.Connections.Laws.{PointersOpen, close_at-PointersOpen}
use projeto_rci.Routing.Path.{RoutePath}
use projeto_rci.Routing.Tables.{Tables}
use projeto_rci.Announce.{
  send_shortest_paths, send_row, path_to_announce, path_via, send_if_open, announce_path,
  announce_new_path, chat_via, next_hop, forward_to, forward_message,
}
use projeto_rci.Ring.Join.{
  leave_ring, send_ns_message, send_array, start_timeout, greet, register, on_join_end,
}

module _ (F : Frame) where
  pub close_connection-Keeps : (p : Pointer) → Keeps F (close_connection p)
  unfolding close_connection
  close_connection-Keeps none = search keeps
  close_connection-Keeps (some i) = search (keeps, close_at-PointersOpen)

  pub find_by_socket-Keeps : (socket : Socket) → Keeps F (find_connection_by_socket socket)
  unfolding find_connection_by_socket
  find_by_socket-Keeps socket = search keeps

  pub find_by_node_id-Keeps : (id : NodeId) → Keeps F (find_connection_by_node_id id)
  unfolding find_connection_by_node_id
  find_by_node_id-Keeps id = search keeps

  module _ (sys : System) where
    pub write_message-Keeps :
        (socket : Socket) (text : Text) → Keeps F (write_message sys socket text)
    unfolding write_message
    write_message-Keeps socket text = search keeps

    pub send_ns_message-Keeps : (message : Text) → Keeps F (send_ns_message sys message)
    unfolding send_ns_message
    send_ns_message-Keeps message = search keeps depth 20

    pub send_array-Keeps : (size n : ℕ) (text : Text) → Keeps F (send_array sys size n text)
    send_array-Keeps size n text = search (keeps, halting, send_ns_message-Keeps) depth 20 fits 4000

    pub start_timeout-Keeps : (ms : ℕ) → Keeps F (start_timeout sys ms)
    unfolding start_timeout
    start_timeout-Keeps ms = search keeps depth 20

    pub leave_ring-Keeps : Keeps F (leave_ring sys)
    unfolding leave_ring
    leave_ring-Keeps =
        search (keeps, halting, send_array-Keeps, close_connection-Keeps) depth 20 fits 4000

    pub on_join_end-Keeps : Keeps F (on_join_end sys)
    unfolding on_join_end
    on_join_end-Keeps = search (keeps, halting, send_array-Keeps) depth 20 fits 4000

    register-Keeps : Keeps F (register sys)
    register-Keeps = search (keeps, halting, send_array-Keeps) depth 20 fits 4000

    -- A join may end in a state in which it waits for nothing.
    pub on_join_end-After :
        (s t : State)
        → F.Good s
        → t.tables ≡ s.tables
        → t.self ≡ s.self
        → (PointersOpen s → PointersOpen t)
        → failures s.history ≤ failures t.history
        → After F s (on_join_end sys t)
    unfolding on_join_end
    on_join_end-After s t g a b v l =
        let joined : State = record t { connection_state = connected } in
        let rel = F.stays s joined g a b v (λ w. tt) l in
        After-compose F s joined (register sys joined) rel
          (register-Keeps.run joined (F.good s joined rel))

  module _ (conn_printf : Socket → Text → M Bool)
      (printf : (socket : Socket) (text : Text) → Keeps F (conn_printf socket text)) where
    send_row-Keeps : (conn r : ℕ) → Keeps F (send_row conn_printf conn r)
    send_row-Keeps conn r = search (keeps, halting, printf) depth 20 fits 4000

    pub send_shortest_paths-Keeps : (conn : ℕ) → Keeps F (send_shortest_paths conn_printf conn)
    unfolding send_shortest_paths
    send_shortest_paths-Keeps conn =
        search (keeps, halting, printf, send_row-Keeps) depth 20 fits 4000

    path_to_announce-Keeps : (t : Tables) (i : NodeIndex) → Keeps F (path_to_announce t i)
    path_to_announce-Keeps t none = search keeps
    path_to_announce-Keeps t (some r) = go (t.forwarding_table r)
      where
        go : (k : NodeIndex) → Keeps F (path_via t r k)
        go none = search keeps
        go (some k) = search keeps

    send_if_open-Keeps : (text : Text) (i : ℕ) → Keeps F (send_if_open conn_printf text i)
    send_if_open-Keeps text i = search (keeps, halting, printf) depth 20 fits 4000

    announce_path-Keeps :
        (id : NodeId) (path : Option RoutePath) → Keeps F (announce_path conn_printf id path)
    unfolding announce_path
    announce_path-Keeps id path = search (keeps, halting, send_if_open-Keeps) depth 20 fits 4000

    pub announce_new_path-Keeps : (id : NodeId) → Keeps F (announce_new_path conn_printf id)
    unfolding announce_new_path
    announce_new_path-Keeps id =
        search (keeps, halting, path_to_announce-Keeps, announce_path-Keeps) depth 20 fits 4000

    pub greet-Keeps : (conn : ℕ) (message : Text) → Keeps F (greet conn_printf conn message)
    greet-Keeps conn message =
        search (keeps, halting, printf, send_shortest_paths-Keeps) depth 20 fits 4000

    chat_via-Keeps : (text : Text) (p : Pointer) → Keeps F (chat_via conn_printf text p)
    chat_via-Keeps text none = search keeps
    chat_via-Keeps text (some i) = search (keeps, halting, printf) depth 20

    next_hop-Keeps : (t : Tables) (i : NodeIndex) → Keeps F (next_hop conn_printf t i)
    next_hop-Keeps t none = search keeps
    next_hop-Keeps t (some i) = search keeps

    forward_to-Keeps :
        (sender recipient : NodeId) (text : Text) (i : NodeIndex)
        → Keeps F (forward_to conn_printf sender recipient text i)
    forward_to-Keeps sender recipient text none = search keeps
    forward_to-Keeps sender recipient text (some r) =
        search (keeps, halting, next_hop-Keeps, chat_via-Keeps, find_by_node_id-Keeps) depth 20 fits
          4000

    pub forward_message-Keeps :
        (sender recipient : NodeId) (text : Text)
        → Keeps F (forward_message conn_printf sender recipient text)
    unfolding forward_message
    forward_message-Keeps sender recipient text =
        search (keeps, halting, forward_to-Keeps) depth 20 fits 4000
