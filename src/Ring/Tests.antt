-- ===== src/Ring/Tests.antt =====
-- The theorems on connections, on forwarding and on leaving at a concrete state: node 5 with the
-- successor 10, to which connection 0 is open, and the predecessor 20, to which connection 1 is.
use projeto_rci.Base.{
  ℕ, ◌+◌, ◌<◌, ◌≡◌, ◌↔◌, ◌≢◌, refl, Bool, true, false, some, none, [], ◌==◌, if◌then◌else◌, ltb,
  pos, arith,
}
use projeto_rci.Node.{NodeId, Text, codes, Node, out_of_bounds, ok, stop}
use projeto_rci.Routing.Tests.{
  first_tables, first_tables-IsValid, direct, second_tables, second_returns,
}
use projeto_rci.Machine.{
  command, unexpected_node_list, timed_out, Socket, no_socket, connected, System, State, M, pure,
}
use projeto_rci.Connections.{add_connection, close_connection}
use projeto_rci.Connections.Laws.{PointersOpen, close_connection-closes}
use projeto_rci.Connections.Open.{Opens, opened_state, add_connection-Opens}
use projeto_rci.Base.{for_each, memcpy, memcmp}
use projeto_rci.Routing.Path.{copy_path, are_paths_equal}
use projeto_rci.Routing.Tables.{
  find_recipient, init_routing, get_recipient_index, get_neighbor_index,
}
use projeto_rci.Routing.Update.{
  crosses, incoming, closest, choice, write_path, update_routing_given_new_path,
}
use projeto_rci.Wire.Print.{get_route_message, path_to_string, print_nodes, print_id, decimal}
use projeto_rci.Announce.Loop.{tells, shortest, announce_new_path-announced}
use projeto_rci.Routing.Invariant.{IsValid}
use projeto_rci.Announce.Change.{with_tables, update_and_announce-announced}
use projeto_rci.Ring.Knot.{conn_printf}
use projeto_rci.Announce.{
  forward_message, announce_new_path, update_routing_and_announce_given_new_path,
}
use projeto_rci.Announce.Forward.{Forwards, forward_message-Forwards}
use projeto_rci.Ring.Join.{leave_ring}
use projeto_rci.Ring.Leave.{Leaves, leave_ring-Leaves}
use projeto_rci.Ring.Unregister.{leave_ring-overflows}

abbrev pub node : NodeId → Node
node id = record { id = id; ip_addr = codes "127.0.0.1"; tcp_port = codes "58001" }

abbrev pub state : State
state = record {
  connections = λ i. record {
    socket = if ltb i 2 then pos (3 + i) else no_socket;
    node_id = if i == 0 then pos 10 else pos 20;
    buffer = [];
    ip_addr = codes "127.0.0.1";
    tcp_port = codes "58001";
  };
  select_inputs = λ _. false;
  new_node_conn = none;
  pred_conn = some 1;
  succ_conn = some 0;
  outbound_chord_conn = none;
  tables = first_tables;
  connection_state = connected;
  self = node (pos 5);
  succ = node (pos 10);
  second_succ = node (pos 20);
  awaiting_succ = false;
  awaiting_pred = false;
  ring_id_str = codes "042";
  timer = record { timeout_instant = record { tv_sec = 0; tv_nsec = 0 }; timeout_handler = false };
  input_state = command;
  node_list_action = unexpected_node_list;
  node_arr = [];
  should_exit = false;
  stdin_buffer = [];
  history = [];
}

-- Every call succeeds.
abbrev pub system : System
system = record {
  new_socket = λ _. some 9;
  resolves = λ _ _ _. true;
  connects = λ _ _. true;
  writes = λ _ _ _. true;
  sends = λ _ _. true;
  node_list = λ _. timed_out;
  clock = λ _. none;
  unwritten = λ _. 0;
}

pub state-PointersOpen : PointersOpen state
state-PointersOpen = record {
  new_node = tt;
  pred = (omega arith, λ e. cc);
  succ = (omega arith, λ e. cc);
  outbound_chord = tt;
}

close_connection-closes_example :
    (s' : State) × (close_connection (some 0) state ≡ ok (tt, s'))
    × ((s'.connections 0).socket ≡ no_socket)
    × (s'.connections 1 ≡ state.connections 1)
    × PointersOpen s'
close_connection-closes_example = close_connection-closes state 0 1 state-PointersOpen (omega arith)

add_connection-Opens_example : Opens state (pos 9) (add_connection (pos 9) state)
add_connection-Opens_example = add_connection-Opens state (pos 9)

takes_two : add_connection (pos 9) state ≡ ok (2, opened_state state (pos 9) 2)
unfolding add_connection projeto_rci.Base.first projeto_rci.Base.◌==ℤ◌
takes_two = refl

abbrev printf : Socket → Text → M Bool
printf socket text = pure true

forward_message-Forwards_example :
    Forwards printf
      (pos 20)
      (pos 30)
      (codes "hello")
      state
      (forward_message printf (pos 20) (pos 30) (codes "hello") state)
forward_message-Forwards_example =
    forward_message-Forwards printf (pos 20) (pos 30) (codes "hello") (pos 5) state
      first_tables-IsValid (λ e. cc)

leave_ring-Leaves_example : Leaves state (leave_ring system state)
leave_ring-Leaves_example = leave_ring-Leaves system state state-PointersOpen

-- Node 100 of ring 042
abbrev three_digits : State
three_digits = record state { self = node (pos 100); ring_id_str = codes "042" }

leave_ring-overflows_example : (leave_ring system three_digits ≡ stop out_of_bounds) ↔ (99 < 100)
leave_ring-overflows_example =
    leave_ring-overflows system 100 three_digits
      (record {
        new_node = state-PointersOpen.new_node;
        pred = state-PointersOpen.pred;
        succ = state-PointersOpen.succ;
        outbound_chord = state-PointersOpen.outbound_chord;
      })
      refl refl refl

-- The message that announces the route to 30
abbrev announcement : Text
announcement = codes "ROUTE 05 30 05-10-20-30\n"

announcement_ok :
    get_route_message
      (pos 5)
      (pos 30)
      (shortest first_tables (find_recipient first_tables (pos 30)))
    ≡ ok announcement
unfolding init_routing get_recipient_index get_neighbor_index projeto_rci.Base.first for_each memcpy
    memcmp projeto_rci.Base.◌==ℤ◌ copy_path are_paths_equal crosses incoming closest choice
    write_path update_routing_given_new_path get_route_message path_to_string print_nodes print_id
    decimal
announcement_ok = refl

announce_new_path-announced_example :
    announce_new_path (conn_printf system 1) (pos 30) state
    ≡ tells state (
        get_route_message
          (pos 5)
          (pos 30)
          (shortest first_tables (find_recipient first_tables (pos 30))))
announce_new_path-announced_example =
    announce_new_path-announced system 0 (pos 5) state (pos 30) (λ h socket text. refl)
      first_tables-IsValid (λ e. cc)

-- The message that announces the shorter route.
abbrev shorter : Text
shorter = codes "ROUTE 05 30 05-30\n"

shorter_ok :
    get_route_message
      (pos 5)
      (pos 30)
      (shortest second_tables (find_recipient second_tables (pos 30)))
    ≡ ok shorter
unfolding init_routing get_recipient_index get_neighbor_index projeto_rci.Base.first for_each memcpy
    memcmp projeto_rci.Base.◌==ℤ◌ copy_path are_paths_equal crosses incoming closest choice
    write_path update_routing_given_new_path get_route_message path_to_string print_nodes print_id
    decimal
shorter_ok = refl

update_and_announce-announced_example :
    IsValid (pos 5) second_tables
    × (update_routing_and_announce_given_new_path
          (conn_printf system 1)
          (pos 30)
          (pos 30)
          direct
          state
        ≡ tells (with_tables state second_tables) (
            get_route_message
              (pos 5)
              (pos 30)
              (shortest second_tables (find_recipient second_tables (pos 30)))))
update_and_announce-announced_example =
    update_and_announce-announced system 0 state (pos 30) (pos 30) direct true second_tables
      (λ h socket text. refl) first_tables-IsValid (λ e. cc) second_returns
