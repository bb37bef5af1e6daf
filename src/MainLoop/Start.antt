-- ===== src/MainLoop/Start.antt =====
-- The whole program, from its initialisation on, keeps to every frame that asks nothing of the
-- tables.
use projeto_rci.Base.{ℕ, pos, for_each, Bool, true, false, Option, none, some}
use projeto_rci.Node.{Text, out_of_fuel}
use projeto_rci.Machine.{no_socket, max_connections, Connection, Socket, System, State, M, ◌>>◌}
use projeto_rci.Connections.{init_connections_array, set_input}
use projeto_rci.Frame.{Frame, After, Keeps, keeps, then-Keeps}
use projeto_rci.Ring.Loose.{IsLoose}
use projeto_rci.Ring.LooseKnot.{loose_printf}
use projeto_rci.Ring.Knot.{conn_printf}
use projeto_rci.User.Loose.{handle_user_input-Keeps}
use projeto_rci.User.{handle_user_input}
use projeto_rci.MainLoop.{Select, turns, run_initial, initialise}
use projeto_rci.MainLoop.Loose.{rounds-Keeps}

-- The state in which the initial command is run
abbrev pub started : State → Socket → Socket → State
started s ns_socket public_socket = set_input public_socket true (
    set_input ns_socket true (
      set_input (pos 0) true (record s {
        connections =
            for_each max_connections (λ (c : Connection). record c { socket = no_socket })
              s.connections;
        select_inputs = λ d. false;
      })))

-- The program, with any number of rounds of the main loop
abbrev pub program : System → ℕ → Socket → Socket → Option Text → Select → ℕ → M Bool
program sys fuel ns_socket public_socket line selects n =
    initialise sys (conn_printf sys fuel) ns_socket public_socket line
    >> turns sys (conn_printf sys fuel) selects n

module _ (F : Frame) (loose : IsLoose F) (may_stop : F.Stops out_of_fuel) (sys : System)
    (fuel : ℕ) where
  printf : (socket : Socket) (text : Text) → Keeps F (conn_printf sys fuel socket text)
  printf = loose_printf F loose may_stop sys fuel

  input-Keeps : (input : Text) → Keeps F (handle_user_input sys (conn_printf sys fuel) input)
  input-Keeps = handle_user_input-Keeps F loose sys (conn_printf sys fuel) printf

  initial-Keeps : (line : Option Text) → Keeps F (run_initial sys (conn_printf sys fuel) line)
  initial-Keeps none = search keeps
  initial-Keeps (some line) = search (keeps, input-Keeps) depth 20 fits 4000

  pub program-After :
      (ns_socket public_socket : Socket) (line : Option Text) (selects : Select) (n : ℕ) (s : State)
      → F.Good (started s ns_socket public_socket)
      → After F
          (started s ns_socket public_socket)
          (program sys fuel ns_socket public_socket line selects n s)
  unfolding initialise init_connections_array
  program-After ns_socket public_socket line selects n s g =
      (then-Keeps F (initial-Keeps line)
          (rounds-Keeps F loose sys (conn_printf sys fuel) printf selects n)).run
        (started s ns_socket public_socket) g
