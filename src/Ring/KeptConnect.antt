-- ===== src/Ring/KeptConnect.antt =====
-- Opening a connection keeps to every frame, and so does storing the pointer to it.
use projeto_rci.Base.{
  ◌≤◌, ℕ, ◌≡◌, ◌≢◌, refl, sym, subst, Bool, true, false, Option, none, some, ◌∷◌, pos, update,
  if◌then◌else◌,
}
use projeto_rci.Node.{Node, Result, ok, stop}
use projeto_rci.Machine.{
  Socket, no_socket, Pointer, created, resolved, Event, History, System, State, and_then, ◌>>◌,
  pure, modify, log, with_history, update_connection,
}
use projeto_rci.Connections.{add_connection}
use projeto_rci.Ring.Awaiting.{IsAwaiting}
use projeto_rci.Connections.Laws.{IsOpen, PointersOpen, updated-IsOpen, updated-AllOpen}
use projeto_rci.Connections.Open.{
  Opens, opened_state, opened-IsOpen, add_connection-Opens, add_connection-PointersOpen,
}
use projeto_rci.Failures.{failures, failures_le, logged_le, logged_twice_le}
use projeto_rci.Frame.{Frame, Halts, After, Keeps}
use projeto_rci.Ring.Join.{
  named, connect_socket, connect_at, connect_via, connect_with, connect_to_node, connect_succ,
  connect_outbound_chord,
}

module _ (F : Frame) where
  -- With the place that is taken
  abbrev pub Added : State → Result (ℕ × State) → Type 0
  Added s (ok (i, s')) = F.Rel s s' × IsOpen s'.connections (some i)
  Added s (stop e) = F.Stops e

  pub add_connection-Added :
      (socket : Socket) (s : State)
      → F.Good s
      → socket ≢ no_socket
      → Added s (add_connection socket s)
  add_connection-Added socket s g used =
      go (add_connection socket s) (add_connection-Opens s socket)
    where
      go : (r : Result (ℕ × State)) → Opens s socket r → Added s r
      go (stop e) h = F.halts e (subst Halts (sym h.0) tt)
      go (ok (i, s')) (lt, free, same) = rw same (
        F.stays s (opened_state s socket i) g refl refl
            (add_connection-PointersOpen s socket i free) (λ w. w) (failures_le s.history),
        opened-IsOpen s socket i lt used,
      )

  module _ (sys : System) where
    -- With a pointer that is NULL or points to an open connection
    abbrev Connected : State → Result (Pointer × State) → Type 0
    Connected s (ok (p, s')) = F.Rel s s' × IsOpen s'.connections p
    Connected s (stop e) = F.Stops e

    connect_at-Connected :
        (node : Node) (socket : Socket) (i : ℕ) (s t : State)
        → F.Rel s t
        → IsOpen t.connections (some i)
        → Connected s (connect_at sys node socket i t)
    unfolding update_connection
    connect_at-Connected node socket i s t rel there =
        found (sys.resolves t.history node.ip_addr node.tcp_port)
      where
        at : History → State
        at h = record t {
          connections = update t.connections i (named node (t.connections i));
          history = h;
        }

        kept : (h : History) → failures t.history ≤ failures h → F.Rel s (at h)
        kept h le = F.compose s t (at h) rel (
            F.stays t (at h) (F.good s t rel) refl refl
              (updated-AllOpen t.connections i (named node) (λ c. refl) t.new_node_conn t.pred_conn
                t.succ_conn t.outbound_chord_conn)
              (λ w. w) le)

        here : IsOpen (at t.history).connections (some i)
        here = updated-IsOpen t.connections i (named node) (λ c. refl) (some i) there

        done :
            (h : History)
            → failures t.history ≤ failures h
            → (b : Bool) → Connected s (ok (if b then some i else none, at h))
        done h le true = (kept h le, here)
        done h le false = (kept h le, tt)

        found :
            (b : Bool)
            → Connected s (
                (log (resolved node.ip_addr node.tcp_port b)
                    >> (if b then connect_socket sys i socket else pure none))
                  (at t.history))
        found true = done _ (logged_twice_le _ _ t.history) _
        found false = (kept _ (logged_le _ t.history), tt)

    connect_via-Connected :
        (node : Node) (socket : Socket) (s : State)
        → F.Good s
        → socket ≢ no_socket
        → Connected s (connect_via sys node socket s)
    connect_via-Connected node socket s g used =
        go (add_connection socket s) (add_connection-Added socket s g used)
      where
        go :
            (r : Result (ℕ × State))
            → Added s r
            → Connected s (and_then r (connect_at sys node socket))
        go (stop e) h = h
        go (ok (i, t)) h = connect_at-Connected node socket i s t h.0 h.1

    connect_to_node-Connected :
        (node : Node) (s : State) → F.Good s → Connected s (connect_to_node sys node s)
    unfolding connect_to_node
    connect_to_node-Connected node s g = go (sys.new_socket s.history)
      where
        logged : Event → State
        logged e = with_history s (e ∷ s.history)

        rel : (e : Event) → F.Rel s (logged e)
        rel e = F.stays s (logged e) g refl refl (λ v. v) (λ w. w) (logged_le e s.history)

        from : (e : Event) (r : Result (Pointer × State)) → Connected (logged e) r → Connected s r
        from e (ok (p, s')) h = (F.compose s (logged e) s' (rel e) h.0, h.1)
        from e (stop x) h = h

        go : (r : Option ℕ) → Connected s ((log (created r) >> connect_with sys node r) s)
        go none = (rel _, tt)
        go (some socket) =
            from (created (some socket))
              (connect_via sys node (pos socket) (logged (created (some socket))))
              (connect_via-Connected node (pos socket) (logged (created (some socket)))
                (F.good s (logged (created (some socket))) (rel _)) (λ e. cc))

    pointed-After :
        (s : State) (r : Result (Pointer × State)) (set : Pointer → State → State)
        → Connected s r
        → ((p : Pointer) (t : State) → (set p t).tables ≡ t.tables)
        → ((p : Pointer) (t : State) → (set p t).self ≡ t.self)
        → ((p : Pointer) (t : State)
            → IsOpen t.connections p
            → PointersOpen t
            → PointersOpen (set p t))
        → ((p : Pointer) (t : State) → IsAwaiting t → IsAwaiting (set p t))
        → ((p : Pointer) (t : State) → failures t.history ≤ failures (set p t).history)
        → After F s (and_then r (λ p. modify (set p) >> pure p))
    pointed-After s (ok (p, t)) set (rel, there) a b c w l =
        F.compose s t (set p t) rel
          (F.stays t (set p t) (F.good s t rel) (a p t) (b p t) (c p t there) (w p t) (l p t))
    pointed-After s (stop e) set h a b c w l = h

    pub connect_succ-Keeps : Keeps F (connect_succ sys)
    unfolding connect_succ
    connect_succ-Keeps = record {
      run = λ s g.
          pointed-After s (connect_to_node sys s.succ s) (λ p t. record t { succ_conn = p })
            (connect_to_node-Connected s.succ s g) (λ p t. refl) (λ p t. refl)
            (λ p t there v. record {
              new_node = v.new_node;
              pred = v.pred;
              succ = there;
              outbound_chord = v.outbound_chord;
            })
            (λ p t w. w) (λ p t. failures_le t.history);
    }

    pub connect_outbound-Keeps : (node : Node) → Keeps F (connect_outbound_chord sys node)
    unfolding connect_outbound_chord
    connect_outbound-Keeps node = record {
      run = λ s g.
          pointed-After s (connect_to_node sys node s) (λ p t. record t { outbound_chord_conn = p })
            (connect_to_node-Connected node s g) (λ p t. refl) (λ p t. refl)
            (λ p t there v. record {
              new_node = v.new_node;
              pred = v.pred;
              succ = v.succ;
              outbound_chord = there;
            })
            (λ p t w. w) (λ p t. failures_le t.history);
    }
