-- ===== src/MainLoop/Pointers.antt =====
-- The pointers into the array of connections, through everything that the program does.
use projeto_rci.Base.{Bool, List, ℕ, ◌≡◌, sym, subst, Option, none}
use projeto_rci.Node.{Text, Result, ok, stop}
use projeto_rci.Machine.{Socket, System, State}
use projeto_rci.Connections.Laws.{IsOpen, PointersOpen}
use projeto_rci.Frame.{Frame, After}
use projeto_rci.MainLoop.Arguments.{Opt, Sockets, with_own_address, main, main_holds}
use projeto_rci.MainLoop.{Select}
use projeto_rci.MainLoop.Start.{started, program, program-After}

abbrev pub pointing : Frame
pointing = record {
  Good = PointersOpen;
  Rel = λ s s'. PointersOpen s';
  Stops = λ e. Unit {0};
  halts = λ e h. tt;
  stays = λ s s' g t n v w l. v g;
  compose = λ a b c p q. q;
  good = λ s s' h. h;
}

-- The four pointers are NULL, as those of a program that starts.
pub record IsUnconnected (s : State) : Type 0 where
  pub new_node : s.new_node_conn ≡ none
  pub pred : s.pred_conn ≡ none
  pub succ : s.succ_conn ≡ none
  pub outbound_chord : s.outbound_chord_conn ≡ none

module _ (s : State) (u : IsUnconnected s) (ns_socket public_socket : Socket) where
  started-PointersOpen : PointersOpen (started s ns_socket public_socket)
  started-PointersOpen = record {
    new_node = subst (IsOpen (started s ns_socket public_socket).connections) (sym u.new_node) tt;
    pred = subst (IsOpen (started s ns_socket public_socket).connections) (sym u.pred) tt;
    succ = subst (IsOpen (started s ns_socket public_socket).connections) (sym u.succ) tt;
    outbound_chord =
        subst (IsOpen (started s ns_socket public_socket).connections) (sym u.outbound_chord) tt;
  }

-- From four NULL pointers, the part of the program behind its arguments leaves each pointer NULL
-- or at an open connection, wherever it returns.
pub program-PointersOpen :
    (sys : System) (fuel : ℕ) (ns_socket public_socket : Socket) (line : Option Text)
    (selects : Select) (n : ℕ) (s : State)
    → IsUnconnected s
    → After pointing s (program sys fuel ns_socket public_socket line selects n s)
program-PointersOpen sys fuel ns_socket public_socket line selects n s u =
    program-After pointing (λ s s' g p w l. p g) tt sys fuel ns_socket public_socket line selects n
      s (started-PointersOpen s u ns_socket public_socket)

anywhere : (s t : State) (r : Result (Bool × State)) → After pointing t r → After pointing s r
anywhere s t (ok x) h = h
anywhere s t (stop e) h = h

-- Whatever the options and arguments of the program, whatever the user types, whatever messages
-- are received, connections accepted, opened and broken, and writes failed, and whatever the fuel:
-- if the program starts with its four pointers NULL, then wherever `main` returns after any number
-- of rounds of its loop, each of the pointers is NULL or points to an open connection of the
-- array.
pub main-PointersOpen :
    (sys : System) (fuel : ℕ) (sockets : Sockets) (selects : Select) (n : ℕ) (opts : List Opt)
    (args : List Text) (s : State)
    → IsUnconnected s
    → After pointing s (main sys fuel sockets selects n opts args s)
main-PointersOpen sys fuel sockets selects n opts args s u =
    main_holds sys fuel sockets selects n (After pointing s) (λ e. tt) s
      (λ own_ip own_port ns_socket public_socket line.
        anywhere s (with_own_address own_ip own_port s) _ (
          program-PointersOpen sys fuel ns_socket public_socket line selects n
            (with_own_address own_ip own_port s)
            (record {
              new_node = u.new_node;
              pred = u.pred;
              succ = u.succ;
              outbound_chord = u.outbound_chord;
            })))
      opts args
