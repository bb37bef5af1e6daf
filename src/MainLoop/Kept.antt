-- ===== src/MainLoop/Kept.antt =====
-- The main loop keeps to every frame that the handlers keep to.
use projeto_rci.Base.{
  ℕ, zero, suc, ◌≡◌, ◌≢◌, refl, pos, update, Bool, true, false, not, Option, none, some, List, [],
  ◌∷◌,
}
use projeto_rci.Node.{Text, Result, ok, stop}
use projeto_rci.ReadLines.{ReadResult, RlResult, rl_ok, rl_overflow, rl_end, rl_error}
use projeto_rci.Machine.{
  Socket, no_socket, Connection, System, State, M, and_then, update_connection,
}
use projeto_rci.Failures.{failures_le}
use projeto_rci.Frame.{
  Frame, After, Keeps, keeps, then-Keeps, bind-Keeps, pure-Keeps, gets-Keeps, log-Keeps,
}
use projeto_rci.Ring.NewNode.{handle_message}
use projeto_rci.Ring.Broken.{handle_broken_socket}
use projeto_rci.Ring.Kept.{leave_ring-Keeps}
use projeto_rci.Ring.KeptConnect.{Added, add_connection-Added}
use projeto_rci.Connections.{add_connection}
use projeto_rci.Connections.Laws.{placed_new, updated-AllOpen}
use projeto_rci.MainLoop.{
  Select, timer_clock, pred_timeout, expire, from_stdin, from_node_server, serve_connections,
  serve_sockets, serve, turn, if_running, turns,
}
use projeto_rci.MainLoop.Connect.{
  Ready, accept_connection, take_connection, place_connection, each_line, after_read, read_from,
  read_connection,
}

module _ (F : Frame) where
  take_connection-Keeps :
      (socket : Socket) (ip_addr : Text)
      → socket ≢ no_socket
      → Keeps F (take_connection socket ip_addr)
  unfolding update_connection
  take_connection-Keeps socket ip_addr used = record {
    run = λ s g. go s (add_connection socket s) (add_connection-Added F socket s g used);
  }
    where
      with_address : Connection → Connection
      with_address c = record c { ip_addr = ip_addr }

      placed : State → ℕ → State
      placed t i = record t {
        connections = update t.connections i (with_address (t.connections i));
        new_node_conn = some i;
      }

      go :
          (s : State) (r : Result (ℕ × State))
          → Added F s r
          → After F s (and_then r (place_connection ip_addr))
      go s (stop e) h = h
      go s (ok (i, t)) (rel, there) = F.compose s t (placed t i) rel (
          F.stays t (placed t i) (F.good s t rel) refl refl
            (λ v.
              updated-AllOpen t.connections i with_address (λ c. refl) (some i) t.pred_conn
                t.succ_conn t.outbound_chord_conn (placed_new v there))
            (λ w. w) (failures_le t.history))

  accepted-Keeps : (socket : ℕ) (ip_addr : Text) → Keeps F (take_connection (pos socket) ip_addr)
  accepted-Keeps socket ip_addr = take_connection-Keeps (pos socket) ip_addr (λ e. cc)

  accept-Keeps : (accepted : Option (Option (ℕ × Text))) → Keeps F (accept_connection accepted)
  unfolding accept_connection
  accept-Keeps none = search keeps
  accept-Keeps (some none) = search keeps
  accept-Keeps (some (some (socket, ip_addr))) = search (keeps, accepted-Keeps) depth 20 fits 4000

  pub each_line-Keeps :
      (lines : List Text) (f : Text → M (Unit {0}))
      → ((line : Text) → Keeps F (f line))
      → Keeps F (each_line lines f)
  unfolding each_line
  each_line-Keeps [] f p = pure-Keeps F tt
  each_line-Keeps (l ∷ ls) f p = then-Keeps F (p l) (each_line-Keeps ls f p)

  module _ (sys : System) where
    clock-Keeps : Keeps F (timer_clock sys)
    clock-Keeps = search keeps depth 20 fits 4000

    expire-Keeps : Keeps F (expire sys)
    unfolding expire pred_timeout
    expire-Keeps = search (keeps, clock-Keeps, leave_ring-Keeps) depth 20 fits 4000

    module _ (conn_printf : Socket → Text → M Bool)
        (messages : (socket : Socket) (message : Text)
          → Keeps F (handle_message sys conn_printf socket message))
        (broken : (socket : Socket) → Keeps F (handle_broken_socket sys conn_printf socket)) where
      after_read-Keeps :
          (socket : Socket) (r : RlResult) → Keeps F (after_read sys conn_printf socket r)
      after_read-Keeps socket rl_ok = pure-Keeps F tt
      after_read-Keeps socket rl_overflow = pure-Keeps F tt
      after_read-Keeps socket rl_end = broken socket
      after_read-Keeps socket rl_error = broken socket

      read_from-Keeps :
          (i : ℕ) (socket : Socket) (r : ReadResult)
          → Keeps F (read_from sys conn_printf i socket r)
      unfolding read_from
      read_from-Keeps i socket r =
          search (keeps, each_line-Keeps, messages, after_read-Keeps) depth 20 fits 4000

      read_connection-Keeps :
          (ready : Ready) (i : ℕ) → Keeps F (read_connection sys conn_printf ready i)
      unfolding read_connection
      read_connection-Keeps ready i = search (keeps, read_from-Keeps) depth 20 fits 4000

      pub serve_connections-Keeps :
          (ready : Ready) → Keeps F (serve_connections sys conn_printf ready)
      serve_connections-Keeps ready =
          search (keeps, accept-Keeps, read_connection-Keeps) depth 20 fits 4000

      node_server-Keeps : (m : Option (Option Text)) → Keeps F (from_node_server sys conn_printf m)
      node_server-Keeps none = search keeps
      node_server-Keeps (some none) = search keeps
      node_server-Keeps (some (some text)) = search keeps

      serve_sockets-Keeps :
          (ready : Ready) (b : Bool) → Keeps F (serve_sockets sys conn_printf ready b)
      serve_sockets-Keeps ready false = search keeps
      serve_sockets-Keeps ready true =
          search (keeps, node_server-Keeps, serve_connections-Keeps) depth 20 fits 4000

      serve-Keeps :
          (r : Option Ready)
          → ((ready : Ready) → r ≡ some ready → Keeps F (from_stdin sys conn_printf ready.stdin))
          → Keeps F (serve sys conn_printf r)
      serve-Keeps none p = search keeps
      serve-Keeps (some ready) p = bind-Keeps F (p ready refl) (serve_sockets-Keeps ready)

      if_running-Keeps :
          {m : M Bool} (b : Bool) → Keeps F m → Keeps F (if_running sys conn_printf b m)
      if_running-Keeps false p = pure-Keeps F false
      if_running-Keeps true p = p

      module _ (selects : Select)
          (stdin : (h : _) (inputs : _) (t : _) (ready : Ready)
            → selects h inputs t ≡ some ready
            → Keeps F (from_stdin sys conn_printf ready.stdin)) where
        turn-Keeps : Keeps F (turn sys conn_printf selects)
        unfolding turn
        turn-Keeps = bind-Keeps F clock-Keeps (λ clock. bind-Keeps F (gets-Keeps F (λ s. s)) (λ s.
            then-Keeps F (log-Keeps F _) (then-Keeps F expire-Keeps (serve-Keeps _ (stdin _ _ _)))))

        pub turns-Keeps : (n : ℕ) → Keeps F (turns sys conn_printf selects n)
        unfolding turns
        turns-Keeps zero = pure-Keeps F true
        turns-Keeps (suc n) = bind-Keeps F (gets-Keeps F (λ s. s.should_exit)) (λ exit.
            if_running-Keeps (not exit)
              (bind-Keeps F turn-Keeps (λ go_on. if_running-Keeps go_on (turns-Keeps n))))
