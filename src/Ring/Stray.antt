-- ===== src/Ring/Stray.antt =====
-- ring.c: ENTRY messages that are handled after their connection was closed, by an earlier line of
-- the same read, and those that come while there is no predecessor.
use projeto_rci.Base.{
  take, update, ℕ, suc, ◌<◌, ◌≡◌, ◌≢◌, refl, inl, inr, ◌⊎◌, Bool, true, false, none, some, ◌==ℤ◌,
  ==ℤ_iff, first-eq_none, Bool-cases,
}
use projeto_rci.Node.{Text, codes, Node, null_pointer, stop}
use projeto_rci.Machine.{
  Socket, Pointer, max_connections, Connection, connected, update_connection, System, State, M,
}
use projeto_rci.Connections.{pointer_eq, max_message_length, by_socket, find_connection_by_socket}
use projeto_rci.Wire.Scan.{scan_node, read}
use projeto_rci.Announce.Loop.{AllWritten, conn_printf-writes}
use projeto_rci.Ring.Knot.{conn_printf}
use projeto_rci.Ring.NewNode.{
  succ_text, handle_entry_in_ring, handle_entry, handle_message_from_new_node, handle_message,
}

-- No connection of the array has the socket.
abbrev pub IsClosed : State → Socket → Type 0
IsClosed s socket = (i : ℕ) → i < max_connections → (s.connections i).socket ≢ socket

by_socket-none : (s : State) (socket : Socket) → IsClosed s socket → by_socket s socket ≡ none
by_socket-none s socket gone =
    first-eq_none max_connections (λ i. (s.connections i).socket ==ℤ socket)
      (λ i lt. missing i lt (Bool-cases _))
  where
    missing :
        (i : ℕ)
        → i < max_connections
        → (((s.connections i).socket ==ℤ socket) ≡ true)
          ⊎ (((s.connections i).socket ==ℤ socket) ≡ false)
        → ((s.connections i).socket ==ℤ socket) ≡ false
    missing i lt (inl e) = absurd (gone i lt ((==ℤ_iff (s.connections i).socket socket).0 e))
    missing i lt (inr e) = e

null_equal : (p : Pointer) → p ≡ none → pointer_eq none p ≡ true
null_equal none e = refl
null_equal (some i) e = absurd (cc e)

module _ (sys : System) (conn_printf : Socket → Text → M Bool) where
  entry-stops :
      (node : Node) (s : State)
      → s.connection_state ≡ connected
      → s.new_node_conn ≡ none
      → handle_entry sys conn_printf node s ≡ stop null_pointer
  unfolding handle_entry
  entry-stops node s joined gone = elim (Bool-cases (s.succ.id ==ℤ s.self.id)) [
    | inl e ↦ rw (joined, e, gone) refl
    | inr e ↦ rw (joined, e, gone) refl
  ]

  -- If the node is connected and handles no new node, and no connection of the array has the
  -- socket that an ENTRY message came from, then the message is taken for one of a new node, and
  -- the program stops at a null pointer.
  pub handle_message-stray :
      (socket : Socket) (message : Text) (node : Node) (s : State)
      → s.connection_state ≡ connected
      → s.new_node_conn ≡ none
      → IsClosed s socket
      → read (scan_node (codes "ENTRY")) message ≡ some node
      → handle_message sys conn_printf socket message s ≡ stop null_pointer
  unfolding handle_message find_connection_by_socket handle_message_from_new_node
  handle_message-stray socket message node s joined gone closed says =
      rw (by_socket-none s socket closed, null_equal s.new_node_conn gone, says)
        (entry-stops node s joined gone)

-- If all writes succeed and there is no predecessor, then a new node's entry into a larger ring
-- stops the program at a null pointer, with one unit of fuel or more.
pub handle_entry_in_ring-stops :
    (sys : System) (fuel conn : ℕ) (node : Node) (s : State)
    → AllWritten sys
    → s.pred_conn ≡ none
    → handle_entry_in_ring sys (conn_printf sys (suc fuel)) conn node s ≡ stop null_pointer
unfolding handle_entry_in_ring update_connection
handle_entry_in_ring-stops sys fuel conn node s all gone =
    let named : Connection = record (s.connections conn) { node_id = node.id } in
    let t : State = record s { connections = update s.connections conn named } in
    let socket = (t.connections conn).socket in
    let writes =
      conn_printf-writes sys fuel socket (succ_text t) t
        (all t.history socket (take max_message_length (succ_text t))) in
    rw (writes, gone) refl
