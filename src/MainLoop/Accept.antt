-- ===== src/MainLoop/Accept.antt =====
-- What accepting a connection does.
use projeto_rci.Base.{
  ℕ, ◌<◌, ◌≡◌, refl, ◌≢◌, pos, inl, inr, Bool, true, false, none, some, ◌∷◌, ==_refl, ==_ne, update,
  Bool-cases,
}
use projeto_rci.Node.{Text, no_connection_space, Result, ok, stop}
use projeto_rci.Machine.{
  Socket, no_socket, max_connections, Connection, Pointer, closed, State, and_then, pure,
  with_history, update_connection,
}
use projeto_rci.Connections.{add_connection, fresh}
use projeto_rci.Connections.Laws.{PointersOpen, placed_new, updated-AllOpen}
use projeto_rci.Connections.Open.{
  Opens, opened_state, opened-IsOpen, add_connection-Opens, add_connection-PointersOpen,
}
use projeto_rci.Ring.Join.{is_connecting, is_connected, is_null}
use projeto_rci.Base.{◌⊎◌, ◌||◌, ◌&&◌}
use projeto_rci.Machine.{
  ConnectionState, disconnected, awaiting_node_list, awaiting_user_selection, connecting, connected,
}
use projeto_rci.MainLoop.Connect.{accepts, place_connection, accept_connection}

abbrev pub accepted_connection : Socket → Text → Connection
accepted_connection socket ip_addr = record (fresh socket) { ip_addr = ip_addr }

-- The state with a place of the array taken by a new node's connection
abbrev pub placed_state : State → Socket → Text → ℕ → State
placed_state s socket ip_addr i = record (opened_state s socket i) {
  connections =
      update (opened_state s socket i).connections i
        (record ((opened_state s socket i).connections i) { ip_addr = ip_addr });
  new_node_conn = some i;
}

pub record IsPlaced (s s' : State) (socket : Socket) (ip_addr : Text) (i : ℕ) : Type 0 where
  pub in_array : i < max_connections
  pub was_free : (s.connections i).socket ≡ no_socket
  pub here : s'.connections i ≡ accepted_connection socket ip_addr
  pub others : (j : ℕ) → i ≢ j → s'.connections j ≡ s.connections j
  pub new_node : s'.new_node_conn ≡ some i
  pub pointers : PointersOpen s'

-- The node is joining a ring or in one, and handles no new node yet.
pub record IsAccepting (s : State) : Type 0 where
  pub in_ring : (s.connection_state ≡ connecting) ⊎ (s.connection_state ≡ connected)
  pub free : s.new_node_conn ≡ none

abbrev pub Accepts : State → Socket → Text → Result (Bool × State) → Type 0
Accepts s socket ip_addr (ok (true, s')) = IsAccepting s × (i : ℕ) × IsPlaced s s' socket ip_addr i
Accepts s socket ip_addr (ok (false, s')) =
    (¬ IsAccepting s) × (s' ≡ with_history s (closed socket ∷ s.history))
Accepts s socket ip_addr (stop e) = IsAccepting s × (e ≡ no_connection_space)

in_ring_of :
    (c : ConnectionState)
    → (is_connecting c || is_connected c) ≡ true
    → (c ≡ connecting) ⊎ (c ≡ connected)
in_ring_of disconnected e = absurd (cc e)
in_ring_of awaiting_node_list e = absurd (cc e)
in_ring_of awaiting_user_selection e = absurd (cc e)
in_ring_of connecting e = inl refl
in_ring_of connected e = inr refl

null_of : (p : Pointer) → is_null p ≡ true → p ≡ none
null_of none e = refl
null_of (some i) e = absurd (cc e)

both : (a b : Bool) → (a && b) ≡ true → (a ≡ true) × (b ≡ true)
both true b e = (refl, e)
both false b e = absurd (cc e)

accepts-IsAccepting : (s : State) → accepts s ≡ true → IsAccepting s
accepts-IsAccepting s e =
    let (ring, free) =
      both (is_connecting s.connection_state || is_connected s.connection_state)
        (is_null s.new_node_conn) e in
    record { in_ring = in_ring_of s.connection_state ring; free = null_of s.new_node_conn free }

-- In such a state the test holds.
IsAccepting-accepts : (s : State) → IsAccepting s → accepts s ≡ true
IsAccepting-accepts s a = elim a.in_ring [
  | inl e ↦ rw (e, a.free) refl
  | inr e ↦ rw (e, a.free) refl
]

module _ (s : State) (socket : Socket) (ip_addr : Text) (i : ℕ) where
  placed_here : (placed_state s socket ip_addr i).connections i ≡ accepted_connection socket ip_addr
  placed_here = rw (==_refl i) refl

  placed_others :
      (j : ℕ) → i ≢ j → (placed_state s socket ip_addr i).connections j ≡ s.connections j
  placed_others j ne = rw (==_ne i j ne) refl

  module _ (lt : i < max_connections) (free : (s.connections i).socket ≡ no_socket)
      (used : socket ≢ no_socket) (v : PointersOpen s) where
    place-IsPlaced : IsPlaced s (placed_state s socket ip_addr i) socket ip_addr i
    place-IsPlaced = record {
      in_array = lt;
      was_free = free;
      here = placed_here;
      others = placed_others;
      new_node = refl;
      pointers =
          updated-AllOpen (opened_state s socket i).connections i
            (λ c. record c { ip_addr = ip_addr }) (λ c. refl) (some i) s.pred_conn s.succ_conn
            s.outbound_chord_conn
            (placed_new (add_connection-PointersOpen s socket i free v)
              (opened-IsOpen s socket i lt used));
    }

module _ (s : State) (socket : Socket) (ip_addr : Text) (used : socket ≢ no_socket)
    (v : PointersOpen s) where
  taken-Accepts :
      (r : Result (ℕ × State))
      → IsAccepting s
      → Opens s socket r
      → Accepts s socket ip_addr (and_then (and_then r (place_connection ip_addr)) (λ _. pure true))
  unfolding update_connection
  taken-Accepts (stop e) a h = (a, h.0)
  taken-Accepts (ok (i, t)) a (lt, free, same) =
      rw same (a, i, place-IsPlaced s socket ip_addr i lt free used v)

module _ (s : State) (socket : ℕ) (ip_addr : Text) (v : PointersOpen s) where
  -- A socket that `accept()` returns, where every pointer is NULL or points to an open connection:
  -- exactly if the node is connecting or connected and handles no new node yet, the connection is
  -- put into a free place of the array with the address of the peer and becomes that of the new
  -- node, all other connections stay, and every pointer is NULL or points to an open connection;
  -- else the socket is closed, and only the history changes. The program stops only where a
  -- connection would be taken and the array has no place.
  pub accept_connection-Accepts :
      Accepts s (pos socket) ip_addr (accept_connection (some (some (socket, ip_addr))) s)
  unfolding accept_connection
  accept_connection-Accepts = elim (Bool-cases (accepts s)) [
    | inl e ↦ rw e (
        taken-Accepts s (pos socket) ip_addr (λ q. cc) v (add_connection (pos socket) s)
          (accepts-IsAccepting s e) (add_connection-Opens s (pos socket)))
    | inr e ↦ rw e (λ a. cc (IsAccepting-accepts s a, e), refl)
  ]
