-- ===== src/Ring/Leave.antt =====
-- Leaving the ring: what `leave_ring` of ring.c leaves behind.
use projeto_rci.Base.{
  ◌⊎◌, ltb, le→not_ltb, not_ltb→le, length, [], ℕ, zero, suc, ◌+◌, ◌≤◌, ◌<◌, ◌≡◌, refl, sym, ap,
  subst, ◌∙◌, inl, inr, Bool, true, false, none, some, arith, ◌==ℤ◌, if◌then◌else◌, Bool-cases, ◌∷◌,
  ◌++◌, take,
}
use native.Mathlib.Decide.{ℕ_discrete}
use projeto_rci.Node.{Text, node_server_error, out_of_bounds, Result, ok, stop}
use projeto_rci.Machine.{
  with_history, no_socket, max_connections, Connection, Pointer, disconnected, System, State, M,
  ◌>>◌, for_loop, bind_ok, modify, History, skip, fail, sent,
}
use projeto_rci.Connections.{close_connection}
use projeto_rci.Connections.Laws.{
  IsOpen, PointersOpen, closed_state, close_connection_runs, closed_state-socket,
  close_connection-PointersOpen,
}
use projeto_rci.Ring.Join.{leave_ring, send_ns_message, is_registered, unreg_text}

-- What stays in a state when connections are closed.
pub record SameRest (s s' : State) : Type 0 where
  pub tables : s'.tables ≡ s.tables
  pub timer : s'.timer ≡ s.timer

closed-SameRest : (s : State) (i : ℕ) → SameRest s (closed_state s i)
closed-SameRest s i = elim (Bool-cases ((s.connections i).socket ==ℤ no_socket)) [
  | inl e ↦ rw e (record { tables = refl; timer = refl })
  | inr e ↦ rw e (record { tables = refl; timer = refl })
]

abbrev pub ClosedFrom : ℕ → ℕ → State → Type 0
ClosedFrom i n s = (j : ℕ) → i ≤ j → j < i + n → (s.connections j).socket ≡ no_socket

-- The loop over the connections closes them all.
close_all :
    (n i : ℕ) (s : State)
    → PointersOpen s
    → (s' : State) × (for_loop n i (λ k. close_connection (some k)) s ≡ ok (tt, s'))
      × PointersOpen s'
      × SameRest s s'
      × ClosedFrom i n s'
      × ((j : ℕ) → j < i → s'.connections j ≡ s.connections j)
unfolding for_loop
close_all zero i s v = (
  s,
  refl,
  v,
  record { tables = refl; timer = refl },
  λ j lo hi. absurd (omega arith),
  λ j lt. refl,
)
close_all (suc n) i s v =
    let t = closed_state s i in
    let at = closed_state-socket s i in
    let same = closed-SameRest s i in
    let (s', e, v', rest, closed, kept) =
      close_all n (suc i) t (close_connection-PointersOpen s i v) in
    (
      s',
      bind_ok (close_connection (some i)) (λ _. for_loop n (suc i) (λ k. close_connection (some k)))
            s t tt (close_connection_runs s i)
          ∙ e,
      v',
      record { tables = rest.tables ∙ same.tables; timer = rest.timer ∙ same.timer },
      λ j lo hi. elim (ℕ_discrete i j) [
        | yes p ↦
            subst (λ k. (s'.connections k).socket ≡ no_socket) p
              (ap (λ (c : Connection). c.socket) (kept i (omega arith)) ∙ at.0)
        | no p ↦ closed j (omega arith) (omega arith)
      ],
      λ j lt. kept j (omega arith) ∙ at.1 j (omega arith),
    )

-- The state in which a node that has left is.
pub record HasLeft (s s' : State) : Type 0 where
  pub state : s'.connection_state ≡ disconnected
  pub sockets : (j : ℕ) → j < max_connections → (s'.connections j).socket ≡ no_socket
  pub new_node : s'.new_node_conn ≡ none
  pub pred : s'.pred_conn ≡ none
  pub succ : s'.succ_conn ≡ none
  pub outbound_chord : s'.outbound_chord_conn ≡ none
  pub rest : SameRest s s'

none_open :
    (s : State) (p : Pointer)
    → ((j : ℕ) → j < max_connections → (s.connections j).socket ≡ no_socket)
    → IsOpen s.connections p
    → p ≡ none
none_open s none closed h = refl
none_open s (some i) closed h = absurd (h.1 (closed i h.0))

-- The UNREG message of a node of a registered ring, with its null character, does not fit into the 13
-- bytes of `unreg_msg`.
pub record IsTooLong (s : State) : Type 0 where
  pub registered : is_registered s ≡ true
  pub too_long : 13 ≤ length (unreg_text s)

abbrev pub Leaves : State → Result (Unit {0} × State) → Type 0
Leaves s (ok (u, s')) = HasLeft s s'
Leaves s (stop e) = (e ≡ node_server_error) ⊎ ((e ≡ out_of_bounds) × IsTooLong s)

abbrev closing : M (Unit {0})
closing =
    for_loop max_connections 0 (λ k. close_connection (some k))
    >> modify (λ s. record s { connection_state = disconnected })

closing-Leaves : (s : State) → PointersOpen s → Leaves s (closing s)
closing-Leaves s v =
    let (s', e, v', rest, closed, _) = close_all max_connections 0 s v in
    let all = λ (j : ℕ) (lt : j < max_connections). closed j (omega arith) (omega arith) in
    let left : HasLeft s (record s' { connection_state = disconnected }) = record {
      state = refl;
      sockets = all;
      new_node = none_open s' s'.new_node_conn all v'.new_node;
      pred = none_open s' s'.pred_conn all v'.pred;
      succ = none_open s' s'.succ_conn all v'.succ;
      outbound_chord = none_open s' s'.outbound_chord_conn all v'.outbound_chord;
      rest = record { tables = rest.tables; timer = rest.timer };
    } in
    subst (Leaves s)
      (sym (
        bind_ok (for_loop max_connections 0 (λ k. close_connection (some k)))
          (λ _. modify (λ t. record t { connection_state = disconnected })) s s' tt e))
      left

-- Telling the node server adds to the history only.
later-Leaves :
    (s : State) (h : History) (r : Result (Unit {0} × State))
    → Leaves (with_history s h) r
    → Leaves s r
later-Leaves s h (ok (u, s')) l = record {
  state = l.state;
  sockets = l.sockets;
  new_node = l.new_node;
  pred = l.pred;
  succ = l.succ;
  outbound_chord = l.outbound_chord;
  rest = record { tables = l.rest.tables; timer = l.rest.timer };
}
later-Leaves s h (stop e) (inl f) = inl f
later-Leaves s h (stop e) (inr f) =
    inr (f.0, record { registered = f.1.registered; too_long = f.1.too_long })

told-Leaves : (s : State) (h : History) → PointersOpen s → Leaves s (closing (with_history s h))
told-Leaves s h v =
    later-Leaves s h (closing (with_history s h)) (closing-Leaves (with_history s h) v)

abbrev tell : Bool → M (Unit {0})
tell done = if done then skip else fail node_server_error

-- Where every pointer is NULL or points to an open connection, `leave_ring` stops only if the node
-- server cannot be told, or, for a connected node of a registered ring, out of bounds where the
-- UNREG message with its null character does not fit into the 13 bytes of `unreg_msg`. Otherwise
-- it returns, with every connection closed, all pointers NULL and the state DISCONNECTED; the
-- routing tables stay as they are, and so does the timer: one that runs goes on.
pub leave_ring-Leaves : (sys : System) (s : State) → PointersOpen s → Leaves s (leave_ring sys s)
unfolding leave_ring send_ns_message
leave_ring-Leaves sys s v = go (Bool-cases (is_registered s))
  where
    message : Text
    message = take 12 (unreg_text s ++ (0 ∷ sys.unwritten 0 ∷ sys.unwritten 1 ∷ []))

    told : (b : Bool) → Leaves s ((tell b >> closing) (with_history s (sent message b ∷ s.history)))
    told true = told-Leaves s (sent message true ∷ s.history) v
    told false = inl refl

    go : (is_registered s ≡ true) ⊎ (is_registered s ≡ false) → Leaves s (leave_ring sys s)
    go (inr e) = rw e (closing-Leaves s v)
    go (inl e) = elim (Bool-cases (ltb (length (unreg_text s)) 13)) [
      | inl f ↦ rw (e, f) (told (sys.sends s.history message))
      | inr f ↦
          rw (e, f)
            (inr
              (refl, record { registered = e; too_long = not_ltb→le (length (unreg_text s)) 13 f }))
    ]

-- That message is printed past the end of the array.
pub too_long-overflows :
    (sys : System) (s : State) → IsTooLong s → leave_ring sys s ≡ stop out_of_bounds
unfolding leave_ring
too_long-overflows sys s h =
    rw (h.registered, le→not_ltb (length (unreg_text s)) 13 h.too_long) refl
