-- ===== src/MainLoop/Tests.antt =====
-- The main loop at a concrete state.
use projeto_rci.Base.{◌≡◌, refl, none, some, [], pos, ◌==ℤ◌}
use projeto_rci.Node.{Text, codes, Result, ok, stop}
use projeto_rci.Base.{Bool, Option, true, false, ◌∷◌, ◌==◌, if◌then◌else◌, arith}
use projeto_rci.Machine.{State, ◌>>◌, update_connection, for_loop}
use projeto_rci.ReadLines.{newline, received, scan, read_lines, read_lines_at}
use projeto_rci.ReadLines.Split.{NoNewline}
use projeto_rci.Frame.{After}
use projeto_rci.Routing.Tests.{first_tables-IsValid}
use projeto_rci.Ring.Knot.{conn_printf}
use projeto_rci.Ring.NewNode.{handle_message}
use projeto_rci.Ring.Safety.{safety}
use projeto_rci.Ring.Tests.{state, system, state-PointersOpen}
use projeto_rci.MainLoop.{Select, turns, turn, expire}
use projeto_rci.MainLoop.Connect.{Ready, each_line, accept_connection, read_connection, read_from}
use projeto_rci.MainLoop.Accept.{Accepts, accept_connection-Accepts}
use projeto_rci.MainLoop.Lines.{read_from-each_line}
use projeto_rci.Timer.{fires}
use projeto_rci.MainLoop.Safety.{turns-After}

-- The successor sends a route, and nothing else happens.
abbrev ready : Ready
ready = record {
  stdin = none;
  node_server = none;
  accepted = none;
  readable = λ socket. socket ==ℤ pos 3;
  received_at = λ i. received (codes "ROUTE 10 30\n");
}

abbrev pub selects : Select
selects h inputs timeout = some ready

ready_stdin : (r : Ready) → some ready ≡ some r → r.stdin ≡ none
ready_stdin r e = cc

turns-After_example : After safety state (turns system (conn_printf system 1) selects 2 state)
turns-After_example =
    turns-After system 1 selects 2 state (λ h inputs t. ready_stdin) first_tables-IsValid

accept_connection-Accepts_example :
    Accepts state
      (pos 9)
      (codes "127.0.0.1")
      (accept_connection (some (some (9, codes "127.0.0.1"))) state)
accept_connection-Accepts_example =
    accept_connection-Accepts state 9 (codes "127.0.0.1") state-PointersOpen

has_newline : Text → Bool
has_newline [] = false
has_newline (b ∷ bs) = if b == newline then true else has_newline bs

no_newline : (s : Text) → has_newline s ≡ false → NoNewline s
unfolding has_newline
no_newline [] e = tt
no_newline (b ∷ bs) e = ground (arith, no_newline bs)

-- Two messages, and the beginning of a third
read_from-each_line_example :
    read_from system
      (conn_printf system 1)
      0
      (pos 3)
      (received (codes "ROUTE 10 30\nROUTE 10 20\nROU"))
      state
    ≡ (each_line
            (codes "ROUTE 10 30" ∷ codes "ROUTE 10 20" ∷ [])
            (handle_message system (conn_printf system 1) (pos 3))
          >> update_connection 0 (λ c. record c { buffer = codes "ROU" }))
        state
unfolding has_newline
read_from-each_line_example =
    read_from-each_line system (conn_printf system 1) 0 (pos 3)
      (codes "ROUTE 10 30" ∷ codes "ROUTE 10 20" ∷ []) (codes "ROU") state refl
      (no_newline (codes "ROUTE 10 30") refl, (no_newline (codes "ROUTE 10 20") refl, tt))
      (no_newline (codes "ROU") refl) (omega arith) (omega arith)

abbrev buffer_after : Result (Bool × State) → Option Text
buffer_after (ok (b, s)) = some (s.connections 0).buffer
buffer_after (stop e) = none

abbrev halves : Select
halves h inputs timeout = some (record ready { received_at = λ i. received (codes "CHAT") })

-- The beginning of a message stays in the buffer over the rounds.
grows : buffer_after (turns system (conn_printf system 1) halves 2 state) ≡ some (codes "CHATCHAT")
unfolding turns turn expire fires accept_connection for_loop read_connection read_from each_line
    scan read_lines read_lines_at projeto_rci.Base.◌==ℤ◌ update_connection
grows = refl
