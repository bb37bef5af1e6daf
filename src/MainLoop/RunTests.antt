-- ===== src/MainLoop/RunTests.antt =====
-- The whole program at a concrete state.
use projeto_rci.MainLoop.{initialise, turns}
use projeto_rci.Connections.{init_connections_array, add_connection, write_message}
use projeto_rci.User.{handle_user_input, run_command}
use projeto_rci.User.Commands.{direct_join_command}
use projeto_rci.Wire.Scan.{scan_word, word, skip_space, scan_id, number, digits}
use projeto_rci.Base.{
  List, [], ◌∷◌, ℕ, true, ◌&&◌, ◌≡◌, refl, pos, Option, none, some, Bool, ◌==ℤ◌, first, for_each,
  memcpy,
}
use projeto_rci.Ring.Join.{is_connecting, join_ring, connect_succ, connect_to_node, start_timeout}
use projeto_rci.Machine.{State, Pointer, disconnected, update_connection, for_loop, for_until}
use projeto_rci.Ring.Knot.{conn_printf}
use projeto_rci.Announce.{send_shortest_paths}
use projeto_rci.Routing.Tables.{init_routing}
use projeto_rci.Wire.Print.{print_id, decimal, get_route_message, print_nodes, path_to_string}
use projeto_rci.Timer.{set_timeout, add_ms}
use projeto_rci.Node.{Text, codes, Result, ok, stop}
use projeto_rci.Frame.{After}
use projeto_rci.Ring.Tests.{state, system}
use projeto_rci.MainLoop.Arguments.{Opt, x_opt, Sockets, initial_command, read_arguments, main}
use projeto_rci.MainLoop.Pointers.{IsUnconnected, pointing, main-PointersOpen}
use projeto_rci.MainLoop.Waiting.{waiting, main-IsAwaiting}
use projeto_rci.MainLoop.Tests.{selects}

abbrev blank : State
blank = record state { connection_state = disconnected; pred_conn = none; succ_conn = none }

-- The program is given a command, and runs `n` rounds of the main loop.
abbrev opts : List Opt
opts = x_opt (codes "dj 05 30 127.0.0.1 50000") ∷ []

abbrev args : List Text
args = codes "127.0.0.1" ∷ codes "58001" ∷ []

abbrev sockets : Sockets
sockets = record { init_ns = λ addr port. some (pos 4); listening = λ port. some (pos 5) }

abbrev run : ℕ → Result (Bool × State)
run n = main system 3 sockets selects n opts args blank

unconnected : IsUnconnected blank
unconnected = record { new_node = refl; pred = refl; succ = refl; outbound_chord = refl }

main-PointersOpen_example : After pointing blank (run 2)
main-PointersOpen_example = main-PointersOpen system 3 sockets selects 2 opts args blank unconnected

main-IsAwaiting_example : After waiting blank (run 2)
main-IsAwaiting_example = main-IsAwaiting system 3 sockets selects 2 opts args blank tt

-- The pointer to the successor, and whether the node is joining
abbrev joins : Result (Bool × State) → Option (Pointer × Bool)
joins (ok (b, s)) = some (s.succ_conn, is_connecting s.connection_state && s.awaiting_pred)
joins (stop e) = none

-- The program connects to the successor that its first command names, and waits for it.
connects : joins (run 0) ≡ some (some 0, true)
unfolding main initial_command read_arguments initialise init_connections_array handle_user_input
    run_command direct_join_command scan_word word skip_space scan_id number digits ◌==ℤ◌ join_ring
    connect_succ connect_to_node add_connection first for_each turns update_connection conn_printf
    send_shortest_paths for_loop start_timeout init_routing print_id decimal memcpy
    get_route_message print_nodes path_to_string set_timeout add_ms write_message for_until
connects = refl
