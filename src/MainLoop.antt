-- ===== src/MainLoop.antt =====
-- main.c: the loop of `main`, which waits for input and hands it to the handlers, and the
-- initialisation before it.
--
-- Left out are the arguments of the program, the opening of its two sockets, and the texts that
-- acknowledgements of the node server lead to: they change nothing.
pub mod Connect
pub mod Kept
pub mod Fuel
pub mod Loose
pub mod Start
pub mod Arguments
pub mod Pointers
pub mod Waiting
pub mod Safety
pub mod Lines
pub mod Accept
mod Tests
mod RunTests
use projeto_rci.Base.{
  ℕ, zero, suc, Bool, true, false, not, Option, none, some, List, [], ◌∷◌, pos, ◌==ℤ◌,
  if◌then◌else◌,
}
use projeto_rci.Node.{Text, node_server_error, select_error, stdin_error}
use projeto_rci.ReadLines.{
  ReadResult, Read, RlResult, rl_ok, rl_end, rl_error, rl_overflow, read_lines,
}
use projeto_rci.Machine.{
  Socket, no_socket, max_connections, read_clock, polled, History, System, State, M, ◌>>=◌, ◌>>◌,
  pure, skip, fail, gets, modify, log, when, for_loop,
}
use projeto_rci.Timer.{Timespec, Timeval, cancel_timeout, select_timeout, fires}
use projeto_rci.Connections.{init_connections_array, set_input}
use projeto_rci.Ring.Join.{leave_ring}
use projeto_rci.User.Input.{user_command_buf_size, print}
use projeto_rci.User.{handle_user_input}
use Connect.{Ready, accept_connection, each_line, read_connection}

-- What `select()` answers at a point of the history, given the sockets to watch and the time to
-- wait; `none` for -1.
abbrev pub Select : Type 0
Select = History → (Socket → Bool) → Option Timeval → Option Ready

-- The clock is read where a timer runs.
abbrev pub clock_now : System → M (Option Timespec)
clock_now sys = do h ← gets (λ s. s.history); log read_clock; pure (sys.clock h)

abbrev pub timer_clock : System → M (Option Timespec)
timer_clock sys = do
  running ← gets (λ s. s.timer.timeout_handler)
  if running then clock_now sys else pure none

unfoldable pub pred_timeout : System → M (Unit {0})
pred_timeout sys = leave_ring sys

-- After `select()`: the handler of a timer that is over is called and unset.
unfoldable pub expire : System → M (Unit {0})
expire sys = do
  clock ← timer_clock sys
  timer ← gets (λ s. s.timer)
  when (fires clock timer)
      (pred_timeout sys >> modify (λ s. record s { timer = cancel_timeout s.timer }))

module _ (sys : System) (conn_printf : Socket → Text → M Bool) where
  -- Does the loop go on?
  abbrev pub after_stdin : RlResult → M Bool
  after_stdin rl_ok = pure true
  after_stdin rl_overflow = pure true
  after_stdin rl_end = pure false
  after_stdin rl_error = fail stdin_error

  unfoldable pub read_stdin : ReadResult → M Bool
  read_stdin input = do
    buffer ← gets (λ s. s.stdin_buffer)
    let r = read_lines user_command_buf_size buffer input
    each_line r.handled (handle_user_input sys conn_printf)
    modify (λ s. record s { stdin_buffer = r.buffer })
    after_stdin r.result

  abbrev pub from_stdin : Option ReadResult → M Bool
  from_stdin none = pure true
  from_stdin (some input) = read_stdin input

  -- `some none` for a message of the node server that could not be received
  abbrev pub from_node_server : Option (Option Text) → M (Unit {0})
  from_node_server (some none) = fail node_server_error
  from_node_server _ = skip

  -- A connection that cannot be accepted ends the round.
  abbrev pub serve_connections : Ready → M (Unit {0})
  serve_connections ready = do
    go_on ← accept_connection ready.accepted
    when go_on (for_loop max_connections 0 (read_connection sys conn_printf ready))

  abbrev pub serve_sockets : Ready → Bool → M Bool
  serve_sockets ready false = pure false
  serve_sockets ready true = do
    from_node_server ready.node_server
    serve_connections ready
    pure true

  abbrev pub serve : Option Ready → M Bool
  serve none = fail select_error
  serve (some ready) = from_stdin ready.stdin >>= serve_sockets ready

  -- One round of the main loop.
  unfoldable pub turn : Select → M Bool
  turn selects = do
    clock ← timer_clock sys
    s ← gets (λ s. s)
    let inputs = s.select_inputs
    let timeout = select_timeout clock s.timer
    log (polled timeout)
    expire sys
    serve (selects s.history inputs timeout)

  abbrev pub if_running : Bool → M Bool → M Bool
  if_running false m = pure false
  if_running true m = m

  -- At most `n` rounds; does the loop still run after them?
  unfoldable pub turns : Select → ℕ → M Bool
  turns selects zero = pure true
  turns selects (suc n) = do
    exit ← gets (λ s. s.should_exit)
    if_running (not exit) (turn selects >>= λ go_on. if_running go_on (turns selects n))

  abbrev pub run_initial : Option Text → M (Unit {0})
  run_initial none = skip
  run_initial (some line) = do print line; handle_user_input sys conn_printf line

  -- Before the loop, with the standard input at descriptor 0.
  unfoldable pub initialise : Socket → Socket → Option Text → M (Unit {0})
  initialise ns_socket public_socket initial_command = do
    init_connections_array
    modify (λ s. record s { select_inputs = λ d. false })
    modify (set_input (pos 0) true)
    modify (set_input ns_socket true)
    modify (set_input public_socket true)
    run_initial initial_command
