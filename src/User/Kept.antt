-- ===== src/User/Kept.antt =====
-- The user's commands, but those that join a ring, keep to every frame that writing and removing a
-- neighbor keep to.
use projeto_rci.Base.{ℕ, Bool, true, false, Option, none, some, [], ◌∷◌}
use projeto_rci.Node.{NodeId, NodeIndex, Text, Node}
use projeto_rci.Routing.Path.{RoutePath}
use projeto_rci.Routing.Tables.{Tables}
use projeto_rci.Machine.{Socket, Pointer, InputState, System, State, M}
use projeto_rci.Frame.{Frame, HaltsOr, Keeps, keeps, then-Keeps, bind-Keeps, when-Keeps, log-Keeps}
use projeto_rci.Halts.{halting}
use projeto_rci.Announce.{remove_routing_neighbor}
use projeto_rci.Wire.Print.{path_to_string}
use projeto_rci.Ring.Join.{join_via, create_outbound_chord, chord_via, is_null, join_initialised}
use projeto_rci.Ring.Kept.{
  close_connection-Keeps, find_by_node_id-Keeps, start_timeout-Keeps, leave_ring-Keeps, greet-Keeps,
  forward_message-Keeps,
}
use projeto_rci.Connections.Laws.{moving}
use projeto_rci.Ring.KeptConnect.{connect_succ-Keeps, connect_outbound-Keeps}
use projeto_rci.User.Input.{scan_argument, word_skipped}
use projeto_rci.Wire.Scan.{scan_id}
use native.Mathlib.Omega.{arith}
use projeto_rci.User.Select.{invalid_id}
use projeto_rci.User.Show.{
  print_pred, print_outbound, print_inbound, show_topology, path_str, show_column, show_paths,
  show_routing_to, shortest_path, show_shortest, show_path_to, with_recipient, show_routing,
  show_path,
}
use projeto_rci.User.Commands.{
  leave_command, remove_chord_to, tell_sent, message_to, message_command,
}

path_to_string-HaltsOr :
    (self recipient_id : NodeId) (path : RoutePath) → HaltsOr (path_str self recipient_id path)
unfolding path_to_string
path_to_string-HaltsOr self recipient_id path = ground arith

module _ (F : Frame) where
  print_pred-Keeps : (p : Pointer) → Keeps F (print_pred p)
  print_pred-Keeps none = search keeps
  print_pred-Keeps (some i) = search keeps depth 20 fits 4000

  print_outbound-Keeps : (p : Pointer) → Keeps F (print_outbound p)
  print_outbound-Keeps none = search keeps
  print_outbound-Keeps (some i) = search keeps depth 20 fits 4000

  print_inbound-Keeps : (i : ℕ) → Keeps F (print_inbound i)
  print_inbound-Keeps i = search keeps depth 20 fits 4000

  pub show_topology-Keeps : Keeps F show_topology
  unfolding show_topology
  show_topology-Keeps =
      search (keeps, print_pred-Keeps, print_outbound-Keeps, print_inbound-Keeps) depth 20 fits 4000

  show_column-Keeps : (id : NodeId) (r k : ℕ) → Keeps F (show_column id r k)
  show_column-Keeps id r k = search (keeps, path_to_string-HaltsOr) depth 20 fits 4000

  show_paths-Keeps : (self id : NodeId) (r : NodeIndex) → Keeps F (show_paths self id r)
  show_paths-Keeps self id none = search keeps
  show_paths-Keeps self id (some r) = search (keeps, show_column-Keeps) depth 20 fits 4000

  show_routing_to-Keeps : (id : NodeId) → Keeps F (show_routing_to id)
  show_routing_to-Keeps id = search (keeps, halting, show_paths-Keeps) depth 20 fits 4000

  shortest_path-Keeps : (t : Tables) (r k : NodeIndex) → Keeps F (shortest_path t r k)
  shortest_path-Keeps t none k = search keeps
  shortest_path-Keeps t (some r) none = search keeps
  shortest_path-Keeps t (some r) (some k) = search keeps

  show_shortest-Keeps : (s : State) (id : NodeId) (r : NodeIndex) → Keeps F (show_shortest s id r)
  show_shortest-Keeps s id none = search keeps
  show_shortest-Keeps s id (some r) =
      search (keeps, shortest_path-Keeps, path_to_string-HaltsOr) depth 20 fits 4000

  show_path_to-Keeps : (id : NodeId) → Keeps F (show_path_to id)
  show_path_to-Keeps id = search (keeps, halting, show_shortest-Keeps) depth 20 fits 4000

  with_recipient-Keeps :
      (show : NodeId → M (Unit {0})) (r : Option (NodeId × Text))
      → ((id : NodeId) → Keeps F (show id))
      → Keeps F (with_recipient show r)
  with_recipient-Keeps show none p = log-Keeps F _
  with_recipient-Keeps show (some (id, rest)) p = p id

  pub show_routing-Keeps : (short : Bool) (input : Text) → Keeps F (show_routing short input)
  unfolding show_routing
  show_routing-Keeps short input = with_recipient-Keeps show_routing_to _ show_routing_to-Keeps

  pub show_path-Keeps : (short : Bool) (input : Text) → Keeps F (show_path short input)
  unfolding show_path
  show_path-Keeps short input = with_recipient-Keeps show_path_to _ show_path_to-Keeps

  pub invalid_id-Keeps : (state : InputState) → Keeps F (invalid_id state)
  invalid_id-Keeps state = search keeps depth 20 fits 4000

  pub leave_command-Keeps : (sys : System) → Keeps F (leave_command sys)
  unfolding leave_command
  leave_command-Keeps sys = search (keeps, leave_ring-Keeps) depth 20 fits 4000

  module _ (conn_printf : Socket → Text → M Bool)
      (printf : (socket : Socket) (text : Text) → Keeps F (conn_printf socket text)) where
    tell_sent-Keeps :
        (sys : System) (id : NodeId) (b : Bool) → Keeps F (tell_sent sys conn_printf id b)
    tell_sent-Keeps sys id true = search keeps
    tell_sent-Keeps sys id false = search keeps

    message_to-Keeps :
        (sys : System) (r : Option (NodeId × Text)) → Keeps F (message_to sys conn_printf r)
    message_to-Keeps sys none = search keeps
    message_to-Keeps sys (some (id, [])) = search keeps
    message_to-Keeps sys (some (id, c ∷ text)) =
        search (keeps, forward_message-Keeps F conn_printf printf, tell_sent-Keeps) depth 20 fits
          4000

    pub message_command-Keeps :
        (sys : System) (input : Text) → Keeps F (message_command sys conn_printf input)
    unfolding message_command
    message_command-Keeps sys input =
        message_to-Keeps sys (scan_argument scan_id (word_skipped (some input)))

    module _ (sys : System) where
      chord_via-Keeps : (p : Pointer) → Keeps F (chord_via sys conn_printf p)
      chord_via-Keeps none = search keeps
      chord_via-Keeps (some i) = search (keeps, greet-Keeps F conn_printf printf) depth 20 fits 4000

      pub create_outbound_chord-Keeps :
          (node : Node) → Keeps F (create_outbound_chord sys conn_printf node)
      unfolding create_outbound_chord
      create_outbound_chord-Keeps node =
          search (keeps, connect_outbound-Keeps, chord_via-Keeps) depth 20 fits 4000

      join_via-Keeps : (p : Pointer) → Keeps F (join_via sys conn_printf p)
      join_via-Keeps none = leave_ring-Keeps F sys
      join_via-Keeps (some i) =
          search (keeps, greet-Keeps F conn_printf printf, start_timeout-Keeps) depth 20 fits 4000

      pub join_initialised-Keeps : Keeps F (join_initialised sys conn_printf)
      join_initialised-Keeps =
          search (keeps, moving, connect_succ-Keeps, join_via-Keeps) depth 20 fits 4000

      pub remove_chord_to-Keeps :
          (i : ℕ) (id : NodeId)
          → Keeps F (remove_routing_neighbor conn_printf id)
          → Keeps F (remove_chord_to sys conn_printf i id)
      remove_chord_to-Keeps i id removes = then-Keeps F (close_connection-Keeps F (some i)) (
          bind-Keeps F (find_by_node_id-Keeps F id)
            (λ conn. then-Keeps F (when-Keeps F (is_null conn) removes) (log-Keeps F _)))
