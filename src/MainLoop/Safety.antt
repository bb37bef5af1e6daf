-- ===== src/MainLoop/Safety.antt =====
-- The rounds of the main loop in which the user types nothing.
use projeto_rci.Base.{Bool, ℕ, ◌≡◌, true, Option, none, some}
use projeto_rci.Node.{Text}
use projeto_rci.Machine.{Socket, History, System, State}
use projeto_rci.Timer.{Timeval}
use projeto_rci.Frame.{After, Keeps, pure-Keeps}
use projeto_rci.Ring.Shrinking.{Good}
use projeto_rci.Ring.Safety.{safety, weaken, handle_message-After, handle_broken_socket-After}
use projeto_rci.Ring.Knot.{conn_printf}
use projeto_rci.Ring.NewNode.{handle_message}
use projeto_rci.Ring.Broken.{handle_broken_socket}
use projeto_rci.MainLoop.{Select, from_stdin, turns}
use projeto_rci.MainLoop.Connect.{Ready}
use projeto_rci.MainLoop.Kept.{turns-Keeps}

-- The standard input is never readable.
abbrev pub IsQuiet : Select → Type 0
IsQuiet selects =
    (h : History) (inputs : Socket → Bool) (t : Option Timeval) (ready : Ready)
    → selects h inputs t ≡ some ready
    → ready.stdin ≡ none

module _ (sys : System) (fuel : ℕ) where
  messages :
      (socket : Socket) (message : Text)
      → Keeps safety (handle_message sys (conn_printf sys fuel) socket message)
  messages socket message = record { run = handle_message-After sys fuel socket message }

  broken : (socket : Socket) → Keeps safety (handle_broken_socket sys (conn_printf sys fuel) socket)
  broken socket = weaken (record { run = handle_broken_socket-After sys fuel socket })

  from_stdin-Keeps :
      (ready : Ready)
      → ready.stdin ≡ none
      → Keeps safety (from_stdin sys (conn_printf sys fuel) ready.stdin)
  from_stdin-Keeps ready e = rw e (pure-Keeps safety true)

  -- If the standard input is never readable: whatever connections are accepted, bytes received,
  -- timers over and writes failed, and whatever the fuel, rounds of the main loop that return from
  -- well-formed tables leave well-formed tables, and this node's own identifier and address as
  -- they were.
  pub turns-After :
      (selects : Select) (n : ℕ) (s : State)
      → IsQuiet selects
      → Good s
      → After safety s (turns sys (conn_printf sys fuel) selects n s)
  turns-After selects n s quiet g =
      (turns-Keeps safety sys (conn_printf sys fuel) messages broken selects
          (λ h inputs t ready e. from_stdin-Keeps ready (quiet h inputs t ready e)) n).run
        s g
