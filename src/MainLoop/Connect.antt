-- ===== src/MainLoop/Connect.antt =====
-- main.c: the part of the main loop that accepts connections and reads from them.
use projeto_rci.Base.{
  ℕ, Bool, true, false, not, ◌&&◌, ◌||◌, Option, none, some, pos, List, [], ◌∷◌, ◌==ℤ◌,
  if◌then◌else◌, length,
}
use projeto_rci.Node.{Text}
use projeto_rci.ReadLines.{
  ReadResult, RlResult, rl_ok, rl_overflow, rl_end, rl_error, read_lines, read_lines_at,
}
use projeto_rci.Machine.{
  Socket, no_socket, closed, System, State, M, ◌>>=◌, ◌>>◌, pure, skip, gets, modify, log, when,
  connection, update_connection,
}
use projeto_rci.Connections.{add_connection}
use projeto_rci.Ring.Join.{is_connected, is_connecting, is_null}
use projeto_rci.Ring.NewNode.{handle_message}
use projeto_rci.Ring.Broken.{handle_broken_socket}

-- What `select()` reports, and what the calls that read then return. `accepted` is `some none`
-- where `accept()` fails; a connection is read from once in a round, so that the bytes are given for
-- its place in the array.
pub record Ready : Type 0 where
  pub stdin : Option ReadResult
  pub node_server : Option (Option Text)
  pub accepted : Option (Option (ℕ × Text))
  pub readable : Socket → Bool
  pub received_at : ℕ → ReadResult

abbrev pub accepts : State → Bool
accepts s =
    (is_connecting s.connection_state || is_connected s.connection_state) && is_null s.new_node_conn

abbrev pub place_connection : Text → ℕ → M (Unit {0})
place_connection ip_addr conn = do
  update_connection conn (λ c. record c { ip_addr = ip_addr })
  modify (λ s. record s { new_node_conn = some conn })

abbrev pub take_connection : Socket → Text → M (Unit {0})
take_connection socket ip_addr = add_connection socket >>= place_connection ip_addr

-- Does the round go on?
unfoldable pub accept_connection : Option (Option (ℕ × Text)) → M Bool
accept_connection none = pure true
accept_connection (some none) = pure false
accept_connection (some (some (socket, ip_addr))) = do
  s ← gets (λ s. s)
  if accepts s
      then (take_connection (pos socket) ip_addr >> pure true)
      else (log (closed (pos socket)) >> pure false)

unfoldable pub each_line : List Text → (Text → M (Unit {0})) → M (Unit {0})
each_line [] f = skip
each_line (l ∷ ls) f = f l >> each_line ls f

module _ (sys : System) (conn_printf : Socket → Text → M Bool) where
  -- What the result of `read_lines` leads to.
  abbrev pub after_read : Socket → RlResult → M (Unit {0})
  after_read socket rl_ok = skip
  after_read socket rl_overflow = skip
  after_read socket rl_end = handle_broken_socket sys conn_printf socket
  after_read socket rl_error = handle_broken_socket sys conn_printf socket

  -- `read_lines` on the buffer of connection `i`, which the handlers may change: they may close the
  -- connection, and use its place for another.
  abbrev pub read_with : ℕ → Socket → ReadResult → Text → M (Unit {0})
  read_with i socket r buffer = do
    each_line (read_lines 256 buffer r).handled (handle_message sys conn_printf socket)
    now ← connection i
    let read = read_lines_at 256 (length now.buffer) buffer r
    update_connection i (λ c. record c { buffer = read.buffer })
    after_read socket read.result

  unfoldable pub read_from : ℕ → Socket → ReadResult → M (Unit {0})
  read_from i socket r = connection i >>= λ c. read_with i socket r c.buffer

  unfoldable pub read_connection : Ready → ℕ → M (Unit {0})
  read_connection ready i = do
    c ← connection i
    when (not (c.socket ==ℤ no_socket) && ready.readable c.socket)
        (read_from i c.socket (ready.received_at i))
