-- ===== src/Connections/Laws.antt =====
-- What opening and closing a connection does to the array and to the pointers into it.
use native.Mathlib.Decide.{ℕ_discrete}
use projeto_rci.Base.{
  ℕ, ◌<◌, ◌≡◌, refl, sym, ap, subst, ◌∙◌, ◌≢◌, inl, inr, true, none, some, ◌==◌, ==_ne, ==_refl,
  ◌==ℤ◌, ==ℤ_iff, if◌then◌else◌, update, Bool-cases,
}
use projeto_rci.Node.{ok}
use projeto_rci.Machine.{Socket, no_socket, max_connections, Connection, Pointer, State}
use projeto_rci.Connections.{close_connection, close_at, forget}

-- A pointer is NULL, or points to an open connection of the array.
abbrev pub IsOpen : (ℕ → Connection) → Pointer → Type 0
IsOpen c none = Unit {0}
IsOpen c (some i) = (i < max_connections) × ((c i).socket ≢ no_socket)

pub record AllOpen (c : ℕ → Connection) (n p s o : Pointer) : Type 0 where
  pub new_node : IsOpen c n
  pub pred : IsOpen c p
  pub succ : IsOpen c s
  pub outbound_chord : IsOpen c o

abbrev pub PointersOpen : State → Type 0
PointersOpen s = AllOpen s.connections s.new_node_conn s.pred_conn s.succ_conn s.outbound_chord_conn

module _ {c : ℕ → Connection} {n p s o : Pointer} (v : AllOpen c n p s o) where
  pub forget_new : AllOpen c none p s o
  forget_new = record {
    new_node = tt;
    pred = v.pred;
    succ = v.succ;
    outbound_chord = v.outbound_chord;
  }

  pub forget_pred : AllOpen c n none s o
  forget_pred = record {
    new_node = v.new_node;
    pred = tt;
    succ = v.succ;
    outbound_chord = v.outbound_chord;
  }

  pub promote_new : AllOpen c none n s o
  promote_new = record {
    new_node = tt;
    pred = v.new_node;
    succ = v.succ;
    outbound_chord = v.outbound_chord;
  }

  pub forget_all_but_succ : AllOpen c none none s none
  forget_all_but_succ = record { new_node = tt; pred = tt; succ = v.succ; outbound_chord = tt }

  pub placed_new : {i : ℕ} → IsOpen c (some i) → AllOpen c (some i) p s o
  placed_new there = record {
    new_node = there;
    pred = v.pred;
    succ = v.succ;
    outbound_chord = v.outbound_chord;
  }

-- Pointers that are set to NULL or moved
pub ruleset moving = (forget_new, forget_pred, promote_new, forget_all_but_succ)

-- What a connection holds besides its socket makes no difference.
pub updated-IsOpen :
    (c : ℕ → Connection) (i : ℕ) (f : Connection → Connection)
    → ((x : Connection) → (f x).socket ≡ x.socket)
    → (p : Pointer) → IsOpen c p
    → IsOpen (update c i (f (c i))) p
updated-IsOpen c i f same none h = tt
updated-IsOpen c i f same (some j) h = elim (ℕ_discrete i j) [
  | yes e ↦
      rw (subst (λ x. (i == x) ≡ true) e (==_refl i))
        (h.0, λ q. h.1 (ap (λ k. (c k).socket) (sym e) ∙ (sym (same (c i)) ∙ q)))
  | no ne ↦ rw (==_ne i j ne) h
]

pub updated-AllOpen :
    (c : ℕ → Connection) (i : ℕ) (f : Connection → Connection)
    → ((x : Connection) → (f x).socket ≡ x.socket)
    → (n p s o : Pointer) → AllOpen c n p s o
    → AllOpen (update c i (f (c i))) n p s o
updated-AllOpen c i f same n p s o v = record {
  new_node = updated-IsOpen c i f same n v.new_node;
  pred = updated-IsOpen c i f same p v.pred;
  succ = updated-IsOpen c i f same s v.succ;
  outbound_chord = updated-IsOpen c i f same o v.outbound_chord;
}

abbrev pub closed_state : State → ℕ → State
closed_state s i =
    if (s.connections i).socket ==ℤ no_socket then s else close_at i (s.connections i).socket s

-- The state that `close_connection` returns.
pub close_connection_runs :
    (s : State) (i : ℕ) → close_connection (some i) s ≡ ok (tt, closed_state s i)
unfolding close_connection
close_connection_runs s i = elim (Bool-cases ((s.connections i).socket ==ℤ no_socket)) [
  | inl e ↦ rw e refl
  | inr e ↦ rw e refl
]

-- In it the connection is free, and the others are what they were.
pub closed_state-socket :
    (s : State) (i : ℕ)
    → (((closed_state s i).connections i).socket ≡ no_socket)
      × ((j : ℕ) → i ≢ j → (closed_state s i).connections j ≡ s.connections j)
closed_state-socket s i = elim (Bool-cases ((s.connections i).socket ==ℤ no_socket)) [
  | inl e ↦ rw e ((==ℤ_iff (s.connections i).socket no_socket).0 e, λ j ne. refl)
  | inr e ↦ rw e (rw (==_refl i) refl, λ j ne. rw (==_ne i j ne) refl)
]

-- A pointer to another open connection survives, and a pointer to this one becomes NULL.
forget-IsOpen :
    (s s' : State) (i : ℕ) (p : Pointer)
    → ((j : ℕ) → i ≢ j → s'.connections j ≡ s.connections j)
    → IsOpen s.connections p
    → IsOpen s'.connections (forget i p)
forget-IsOpen s s' i none same h = tt
forget-IsOpen s s' i (some j) same h = elim (ℕ_discrete j i) [
  | yes e ↦ rw (subst (λ x. (j == x) ≡ true) e (==_refl j)) tt
  | no e ↦
      rw (==_ne j i e)
        (h.0, λ f. h.1 (sym (ap (λ (c : Connection). c.socket) (same j (λ q. e (sym q)))) ∙ f))
]

pub close_at-PointersOpen :
    (i : ℕ) (socket : Socket) (s : State) → PointersOpen s → PointersOpen (close_at i socket s)
close_at-PointersOpen i socket s v =
    let s' = close_at i socket s in
    let same = λ (j : ℕ) (ne : i ≢ j).
      let q : s'.connections j ≡ s.connections j = rw (==_ne i j ne) refl in q in
    record {
      new_node = forget-IsOpen s s' i s.new_node_conn same v.new_node;
      pred = forget-IsOpen s s' i s.pred_conn same v.pred;
      succ = forget-IsOpen s s' i s.succ_conn same v.succ;
      outbound_chord = forget-IsOpen s s' i s.outbound_chord_conn same v.outbound_chord;
    }

pub close_connection-PointersOpen :
    (s : State) (i : ℕ) → PointersOpen s → PointersOpen (closed_state s i)
close_connection-PointersOpen s i v = elim (Bool-cases ((s.connections i).socket ==ℤ no_socket)) [
  | inl e ↦ rw e v
  | inr e ↦ rw e (close_at-PointersOpen i (s.connections i).socket s v)
]

-- If every pointer is NULL or points to an open connection, `close_connection` returns, the
-- connection is free, any other is what it was, and every pointer is NULL or points to an open
-- connection.
pub close_connection-closes :
    (s : State) (i j : ℕ)
    → PointersOpen s
    → i ≢ j
    → (s' : State) × (close_connection (some i) s ≡ ok (tt, s'))
      × ((s'.connections i).socket ≡ no_socket)
      × (s'.connections j ≡ s.connections j)
      × PointersOpen s'
close_connection-closes s i j v ne =
    let (free, same) = closed_state-socket s i in
    (
      closed_state s i,
      close_connection_runs s i,
      free,
      same j ne,
      close_connection-PointersOpen s i v,
    )
