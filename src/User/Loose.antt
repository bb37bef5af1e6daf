-- ===== src/User/Loose.antt =====
-- A line of the user keeps to every frame that asks nothing of the tables: `User`.
use projeto_rci.Base.{◌≤◌, inl, inr, Bool-cases, Bool, Option, none, some, [], arith}
use projeto_rci.Node.{Text, Node}
use projeto_rci.Machine.{
  Socket, M, Pointer, State, System, NodeListAction, unexpected_node_list, join_action,
  chord_action, NodeListAnswer, select_failed, timed_out, receive_failed, answered, InputState,
  command, join_node_selection, chord_node_selection,
}
use projeto_rci.Wire.Scan.{Scan}
use projeto_rci.Ring.Awaiting.{IsAwaiting}
use projeto_rci.Connections.Laws.{PointersOpen}
use projeto_rci.Failures.{failures, failures_le}
use projeto_rci.Frame.{
  Frame, HaltsOr, Keeps, keeps, bind-Keeps, then-Keeps, pure-Keeps, connection-Keeps,
}
use projeto_rci.Ring.Kept.{leave_ring-Keeps, on_join_end-Keeps, send_array-Keeps}
use projeto_rci.Ring.Join.{join_ring, init_tables}
use projeto_rci.Ring.Loose.{IsLoose, modify-Keeps, neighbor-Keeps}
use projeto_rci.NodeServer.{
  choose_id, in_use, list_received, node_list, handle_answer, request_node_list,
}
use projeto_rci.NodeServer.Halting.{parse_node_list-HaltsOr}
use projeto_rci.User.{run_command, handle_in, handle_user_input}
use projeto_rci.User.Input.{input_lowercase, stored, convert}
use projeto_rci.User.Select.{use_node, selected, select_node}
use projeto_rci.User.Commands.{
  join_scanned, join_command, chord_command, direct_join_scanned, direct_join_command, remove_chord,
  remove_chord_command,
}
use projeto_rci.User.Kept.{
  invalid_id-Keeps, join_initialised-Keeps, create_outbound_chord-Keeps, leave_command-Keeps,
  show_topology-Keeps, show_routing-Keeps, show_path-Keeps, message_command-Keeps,
  remove_chord_to-Keeps,
}

choose_id-PointersOpen : (s : State) → PointersOpen s → PointersOpen (choose_id s)
unfolding choose_id
choose_id-PointersOpen s v = elim (Bool-cases (in_use s.node_arr s.self.id)) [
  | inl e ↦ rw e v
  | inr e ↦ rw e v
]

choose_id-failures : (s : State) → failures s.history ≤ failures (choose_id s).history
unfolding choose_id
choose_id-failures s = elim (Bool-cases (in_use s.node_arr s.self.id)) [
  | inl e ↦ rw e (failures_le s.history)
  | inr e ↦ rw e (failures_le s.history)
]

module _ (F : Frame) (loose : IsLoose F) where
  stored-Keeps :
      {A : Type 0} (store : A → State → State) (r : Option (A × Text))
      → ((a : A) (s : State) → PointersOpen s → PointersOpen (store a s))
      → ((a : A) (s : State) → IsAwaiting s → IsAwaiting (store a s))
      → ((a : A) (s : State) → failures s.history ≤ failures (store a s).history)
      → Keeps F (stored store r)
  stored-Keeps store none kept waits more = search keeps
  stored-Keeps store (some (a, rest)) kept waits more =
      then-Keeps F (modify-Keeps F loose (store a) (kept a) (waits a) (more a))
        (pure-Keeps F (some rest))

  convert-Keeps :
      {A : Type 0} (m : Scan A) (store : A → State → State) (text : Option Text)
      → ((a : A) (s : State) → PointersOpen s → PointersOpen (store a s))
      → ((a : A) (s : State) → IsAwaiting s → IsAwaiting (store a s))
      → ((a : A) (s : State) → failures s.history ≤ failures (store a s).history)
      → Keeps F (convert m store text)
  convert-Keeps m store none kept waits more = search keeps
  convert-Keeps m store (some text) kept waits more = stored-Keeps store (m text) kept waits more

  module _ (sys : System) where
    received-Keeps : (action : NodeListAction) → Keeps F (list_received sys action)
    received-Keeps unexpected_node_list = search keeps
    received-Keeps join_action =
        search
          (
            keeps,
            choose_id-PointersOpen,
            choose_id-failures,
            modify-Keeps F loose,
            on_join_end-Keeps,
          )
          depth 20 fits 4000
    received-Keeps chord_action = search keeps depth 20 fits 4000

    node_list-Keeps : (message behind : Text) → Keeps F (node_list sys message behind)
    node_list-Keeps message behind =
        search (keeps, parse_node_list-HaltsOr, received-Keeps) depth 20 fits 4000

    handle_answer-Keeps : (answer : NodeListAnswer) → Keeps F (handle_answer sys answer)
    handle_answer-Keeps select_failed = search keeps
    handle_answer-Keeps timed_out = leave_ring-Keeps F sys
    handle_answer-Keeps (receive_failed behind) = node_list-Keeps [] behind
    handle_answer-Keeps (answered message behind) = node_list-Keeps message behind

    request-Keeps : (ring_id_str : Text) → Keeps F (request_node_list sys ring_id_str)
    unfolding request_node_list
    request-Keeps ring_id_str =
        search (keeps, send_array-Keeps, handle_answer-Keeps) depth 20 fits 4000

    join_scanned-Keeps : (r : Option Text) → Keeps F (join_scanned sys r)
    join_scanned-Keeps none = search keeps
    join_scanned-Keeps (some rest) = search (keeps, request-Keeps) depth 20 fits 4000

    join-Keeps : (input : Text) → Keeps F (join_command sys input)
    unfolding join_command
    join-Keeps input = search (keeps, convert-Keeps, join_scanned-Keeps) depth 20 fits 4000

    chord-Keeps : Keeps F (chord_command sys)
    unfolding chord_command
    chord-Keeps = search (keeps, request-Keeps) depth 20 fits 4000

    module _ (conn_printf : Socket → Text → M Bool)
        (printf : (socket : Socket) (text : Text) → Keeps F (conn_printf socket text)) where
      join_ring-Keeps : Keeps F (join_ring sys conn_printf)
      unfolding join_ring
      join_ring-Keeps =
          then-Keeps F
            (modify-Keeps F loose init_tables (λ s v. v) (λ s w. w) (λ s. failures_le s.history))
            (join_initialised-Keeps F conn_printf printf sys)

      direct-Keeps : (r : Option Text) → Keeps F (direct_join_scanned sys conn_printf r)
      direct-Keeps none = search keeps
      direct-Keeps (some rest) =
          search (keeps, modify-Keeps F loose, join_ring-Keeps) depth 20 fits 4000

      direct_join-Keeps :
          (short : Bool) (input : Text) → Keeps F (direct_join_command sys conn_printf short input)
      unfolding direct_join_command
      direct_join-Keeps short input = search (keeps, convert-Keeps, direct-Keeps) depth 20 fits 4000

      remove_chord-Keeps : (p : Pointer) → Keeps F (remove_chord sys conn_printf p)
      remove_chord-Keeps none = search keeps
      remove_chord-Keeps (some i) = bind-Keeps F (connection-Keeps F i) (λ c.
          remove_chord_to-Keeps F conn_printf printf sys i c.node_id
            (neighbor-Keeps F loose conn_printf printf c.node_id))

      remove-Keeps : Keeps F (remove_chord_command sys conn_printf)
      unfolding remove_chord_command
      remove-Keeps = search (keeps, remove_chord-Keeps) depth 20 fits 4000

      use_node-Keeps :
          (state : InputState) (node : Node) → Keeps F (use_node sys conn_printf state node)
      use_node-Keeps join_node_selection node = search (keeps, join_ring-Keeps) depth 20 fits 4000
      use_node-Keeps chord_node_selection node =
          create_outbound_chord-Keeps F conn_printf printf sys node
      use_node-Keeps command node = search keeps

      selected-Keeps :
          (state : InputState) (r : Option Node) → Keeps F (selected sys conn_printf state r)
      selected-Keeps state none = invalid_id-Keeps F state
      selected-Keeps state (some node) = search (keeps, use_node-Keeps) depth 20 fits 4000

      select-Keeps :
          (state : InputState) (input : Text) → Keeps F (select_node sys conn_printf state input)
      unfolding select_node
      select-Keeps state input = search (keeps, selected-Keeps) depth 20 fits 4000

      run_command-Keeps : (input lower : Text) → Keeps F (run_command sys conn_printf input lower)
      unfolding run_command
      run_command-Keeps input lower =
          search
            (
              keeps,
              join-Keeps,
              leave_command-Keeps,
              direct_join-Keeps,
              chord-Keeps,
              remove-Keeps,
              show_topology-Keeps,
              show_routing-Keeps,
              show_path-Keeps,
              message_command-Keeps F conn_printf printf,
            )
            depth 30 fits 8000

      lowercase-HaltsOr : (input : Text) → HaltsOr (input_lowercase input)
      lowercase-HaltsOr input = ground arith

      handle_in-Keeps :
          (state : InputState) (input : Text) → Keeps F (handle_in sys conn_printf state input)
      handle_in-Keeps join_node_selection input = select-Keeps join_node_selection input
      handle_in-Keeps chord_node_selection input = select-Keeps chord_node_selection input
      handle_in-Keeps command input =
          search (keeps, lowercase-HaltsOr, run_command-Keeps) depth 20 fits 4000

      pub handle_user_input-Keeps :
          (input : Text) → Keeps F (handle_user_input sys conn_printf input)
      unfolding handle_user_input
      handle_user_input-Keeps input = search (keeps, handle_in-Keeps) depth 20 fits 4000
