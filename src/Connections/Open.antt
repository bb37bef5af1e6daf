-- ===== src/Connections/Open.antt =====
-- What opening a connection does to the array and to the pointers into it.
use projeto_rci.Base.{
  ℕ, ◌<◌, ◌≡◌, refl, sym, ap, subst, ◌∙◌, ◌≢◌, true, false, none, some, ==_ne, ==_refl, ◌==ℤ◌,
  ==ℤ_iff, update, first-some, first-none,
}
use projeto_rci.Node.{no_connection_space, Result, ok, stop}
use projeto_rci.Machine.{Socket, no_socket, max_connections, Pointer, State}
use projeto_rci.Connections.{
  add_connection, take_free, find_free, fresh, set_input, pointer_eq, is_inbound_chord,
}
use projeto_rci.Connections.Laws.{IsOpen, PointersOpen}

abbrev pub opened_state : State → Socket → ℕ → State
opened_state s socket i = record (set_input socket true s) {
  connections = update s.connections i (fresh socket);
}

pub opened-IsOpen :
    (s : State) (socket : Socket) (i : ℕ)
    → i < max_connections
    → socket ≢ no_socket
    → IsOpen (opened_state s socket i).connections (some i)
opened-IsOpen s socket i lt used = rw (==_refl i) (lt, used)

-- What a call may do: take a slot that was free, or stop because there is none.
abbrev pub Opens : State → Socket → Result (ℕ × State) → Type 0
Opens s socket (ok (i, s')) =
    (i < max_connections) × ((s.connections i).socket ≡ no_socket) × (s' ≡ opened_state s socket i)
Opens s socket (stop e) =
    (e ≡ no_connection_space)
    × ((i : ℕ) → i < max_connections → (s.connections i).socket ≢ no_socket)

-- `add_connection` fills a free slot and marks the socket as an input, and changes nothing else; it
-- stops the program exactly when all slots are taken.
pub add_connection-Opens : (s : State) (socket : Socket) → Opens s socket (add_connection socket s)
unfolding add_connection
add_connection-Opens s socket = go (find_free s) refl
  where
    go :
        (r : Pointer)
        → find_free s ≡ r
        → Opens s socket (take_free socket r (set_input socket true s))
    go none e = (
      refl,
      λ i lt f.
          let miss =
            first-none max_connections (λ i. (s.connections i).socket ==ℤ no_socket) e i lt in
          cc (miss, (==ℤ_iff (s.connections i).socket no_socket).1 f),
    )
    go (some i) e =
        let f = first-some max_connections (λ i. (s.connections i).socket ==ℤ no_socket) e in
        (f.0, (==ℤ_iff (s.connections i).socket no_socket).0 f.1, refl)

module _ (s : State) (socket : Socket) (i : ℕ) (free : (s.connections i).socket ≡ no_socket) where
  kept-IsOpen :
      (p : Pointer) → IsOpen s.connections p → IsOpen (opened_state s socket i).connections p
  kept-IsOpen none h = tt
  kept-IsOpen (some j) h =
      let apart : i ≢ j = λ q. h.1 (ap (λ k. (s.connections k).socket) (sym q) ∙ free) in
      rw (==_ne i j apart) h

  -- The slot that is taken is nobody's: all pointers keep pointing to their own open connections.
  pub add_connection-PointersOpen : PointersOpen s → PointersOpen (opened_state s socket i)
  add_connection-PointersOpen v = record {
    new_node = kept-IsOpen s.new_node_conn v.new_node;
    pred = kept-IsOpen s.pred_conn v.pred;
    succ = kept-IsOpen s.succ_conn v.succ;
    outbound_chord = kept-IsOpen s.outbound_chord_conn v.outbound_chord;
  }

nobody :
    (s : State) (i : ℕ)
    → (s.connections i).socket ≡ no_socket
    → (p : Pointer) → IsOpen s.connections p
    → pointer_eq (some i) p ≡ false
nobody s i free none h = refl
nobody s i free (some j) h =
    ==_ne i j (λ q. h.1 (ap (λ k. (s.connections k).socket) (sym q) ∙ free))

-- If every pointer is NULL or points to an open connection, that is so after a call of
-- `add_connection` that returns, and none points to the new connection.
pub add_connection-keeps :
    (s s' : State) (socket : Socket) (i : ℕ)
    → PointersOpen s
    → add_connection socket s ≡ ok (i, s')
    → PointersOpen s' × (is_inbound_chord s' (some i) ≡ true)
unfolding is_inbound_chord
add_connection-keeps s s' socket i v e =
    let (lt, free, same) = subst (Opens s socket) e (add_connection-Opens s socket) in
    rw same (
      add_connection-PointersOpen s socket i free v,
      rw
          (
            nobody s i free s.new_node_conn v.new_node,
            nobody s i free s.pred_conn v.pred,
            nobody s i free s.succ_conn v.succ,
            nobody s i free s.outbound_chord_conn v.outbound_chord,
          )
          refl,
    )
