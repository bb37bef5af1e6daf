-- ===== src/MainLoop/Waiting.antt =====
-- What a join waits for, through everything that the program does.
use projeto_rci.Base.{Bool, List, ℕ, Option}
use projeto_rci.Node.{Text, Result, ok, stop}
use projeto_rci.Machine.{Socket, System, State}
use projeto_rci.Frame.{Frame, After}
use projeto_rci.Ring.Awaiting.{IsAwaiting}
use projeto_rci.MainLoop.Arguments.{Opt, Sockets, with_own_address, main, main_holds}
use projeto_rci.MainLoop.{Select}
use projeto_rci.MainLoop.Start.{program, program-After}

abbrev pub waiting : Frame
waiting = record {
  Good = IsAwaiting;
  Rel = λ s s'. IsAwaiting s';
  Stops = λ e. Unit {0};
  halts = λ e h. tt;
  stays = λ s s' g t n v w l. w g;
  compose = λ a b c p q. q;
  good = λ s s' h. h;
}

-- The part of the program behind its arguments leaves a node that is CONNECTING waiting for a
-- message, wherever it returns, if it started so or in another state.
pub program-IsAwaiting :
    (sys : System) (fuel : ℕ) (ns_socket public_socket : Socket) (line : Option Text)
    (selects : Select) (n : ℕ) (s : State)
    → IsAwaiting s
    → After waiting s (program sys fuel ns_socket public_socket line selects n s)
program-IsAwaiting sys fuel ns_socket public_socket line selects n s a =
    program-After waiting (λ s s' g p w l. w g) tt sys fuel ns_socket public_socket line selects n s
      a

anywhere : (s t : State) (r : Result (Bool × State)) → After waiting t r → After waiting s r
anywhere s t (ok x) h = h
anywhere s t (stop e) h = h

-- Whatever the options and arguments of the program, whatever the user types, whatever messages
-- are received, connections broken, and writes failed, and whatever the fuel: if the program
-- starts in a state other than CONNECTING, or waiting for SUCC or PRED, then wherever `main`
-- returns after any number of rounds of its loop, a node that is CONNECTING still waits for the
-- SUCC message, for the PRED message, or for both. So the join has ended as soon as neither is
-- missing.
pub main-IsAwaiting :
    (sys : System) (fuel : ℕ) (sockets : Sockets) (selects : Select) (n : ℕ) (opts : List Opt)
    (args : List Text) (s : State)
    → IsAwaiting s
    → After waiting s (main sys fuel sockets selects n opts args s)
main-IsAwaiting sys fuel sockets selects n opts args s u =
    main_holds sys fuel sockets selects n (After waiting s) (λ e. tt) s
      (λ own_ip own_port ns_socket public_socket line.
        anywhere s (with_own_address own_ip own_port s) _ (
          program-IsAwaiting sys fuel ns_socket public_socket line selects n
            (with_own_address own_ip own_port s) u))
      opts args
