-- ===== src/Ring/KeptBroken.antt =====
-- The handlers of broken connections keep to every frame that `conn_printf` and
-- `remove_routing_neighbor` keep to.
use projeto_rci.Base.{ℕ, Bool, none, some}
use projeto_rci.Node.{NodeId, Text}
use projeto_rci.Machine.{Socket, Pointer, System, State, M}
use projeto_rci.Frame.{Frame, Keeps, keeps}
use projeto_rci.Ring.Join.{remove_neighbor_connection}
use projeto_rci.Ring.Broken.{
  close_chord_to, greet_succ, connect_to_succ, succ_replaced, tell_pred, handle_broken_succ_socket,
  handle_broken_pred_socket, broken_chord, broken_role, handle_broken_socket,
}
use projeto_rci.Ring.Kept.{
  close_connection-Keeps, find_by_socket-Keeps, find_by_node_id-Keeps, start_timeout-Keeps,
  leave_ring-Keeps, greet-Keeps,
}
use projeto_rci.Connections.Laws.{moving}
use projeto_rci.Ring.Awaiting.{succ_missing}
use projeto_rci.Ring.KeptConnect.{connect_succ-Keeps}

module _ (F : Frame) (conn_printf : Socket → Text → M Bool)
    (printf : (socket : Socket) (text : Text) → Keeps F (conn_printf socket text))
    (removes : (id : NodeId) → Keeps F (remove_neighbor_connection conn_printf id))
    (sys : System) where
  pub close_chord_to-Keeps : (id : NodeId) → Keeps F (close_chord_to sys conn_printf id)
  unfolding close_chord_to
  close_chord_to-Keeps id =
      search (keeps, removes, find_by_node_id-Keeps, close_connection-Keeps) depth 20 fits 4000

  greet_succ-Keeps : (p : Pointer) → Keeps F (greet_succ sys conn_printf p)
  unfolding greet_succ
  greet_succ-Keeps none = leave_ring-Keeps F sys
  greet_succ-Keeps (some conn) = search (keeps, greet-Keeps F conn_printf printf) depth 20 fits 4000

  pub connect_to_succ-Keeps : Keeps F (connect_to_succ sys conn_printf)
  unfolding connect_to_succ
  connect_to_succ-Keeps = search (keeps, connect_succ-Keeps, greet_succ-Keeps) depth 20 fits 4000

  succ_replaced-Keeps : (pred : ℕ) → Keeps F (succ_replaced sys conn_printf pred)
  unfolding succ_replaced
  succ_replaced-Keeps pred =
      search (keeps, printf, close_chord_to-Keeps, connect_to_succ-Keeps) depth 20 fits 4000

  tell_pred-Keeps : (p : Pointer) → Keeps F (tell_pred sys conn_printf p)
  tell_pred-Keeps none = leave_ring-Keeps F sys
  tell_pred-Keeps (some pred) =
      search (keeps, leave_ring-Keeps, succ_replaced-Keeps) depth 20 fits 4000

  broken_succ-Keeps : Keeps F (handle_broken_succ_socket sys conn_printf)
  unfolding handle_broken_succ_socket
  broken_succ-Keeps =
      search (keeps, succ_missing, leave_ring-Keeps, tell_pred-Keeps) depth 20 fits 4000

  broken_pred-Keeps : Keeps F (handle_broken_pred_socket sys conn_printf)
  unfolding handle_broken_pred_socket
  broken_pred-Keeps =
      search (keeps, moving, leave_ring-Keeps, removes, start_timeout-Keeps) depth 20 fits 4000

  broken_chord-Keeps : (p : Pointer) → Keeps F (broken_chord sys conn_printf p)
  broken_chord-Keeps p = search keeps depth 20 fits 4000

  broken_role-Keeps : (s : State) (p : Pointer) → Keeps F (broken_role sys conn_printf s p)
  broken_role-Keeps s p =
      search (keeps, moving, broken_pred-Keeps, broken_succ-Keeps, broken_chord-Keeps) depth 20 fits
        4000

  pub handle_broken_socket-Keeps :
      (socket : Socket) → Keeps F (handle_broken_socket sys conn_printf socket)
  unfolding handle_broken_socket
  handle_broken_socket-Keeps socket =
      search (keeps, removes, find_by_socket-Keeps, broken_role-Keeps, close_connection-Keeps) depth
        20 fits 4000
