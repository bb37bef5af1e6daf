-- ===== src/Connections.antt =====
-- connections.c: the array of connections and the pointers into it.
pub mod Laws
pub mod Open
use projeto_rci.Base.{
  ℕ, Bool, true, false, not, ◌&&◌, ◌||◌, Option, none, some, [], ◌∷◌, ℤ, ◌==ℤ◌, ◌==◌, if◌then◌else◌,
  first, update, for_each, take,
}
use projeto_rci.Node.{NodeId, Text, no_node_id, no_connection_space}
use projeto_rci.Machine.{
  Socket, no_socket, max_connections, Connection, Pointer, Event, closed, wrote, System, State, M,
  ◌>>=◌, ◌>>◌, pure, skip, fail, gets, modify, log, connection, set_connection, when,
}

unfoldable pub init_connections_array : M (Unit {0})
init_connections_array = modify (λ s. record s {
  connections =
      for_each max_connections (λ (c : Connection). record c { socket = no_socket }) s.connections;
})

-- FD_SET and FD_CLR on `select_inputs`
abbrev pub set_input : Socket → Bool → State → State
set_input socket b s = record s {
  select_inputs = λ d. if socket ==ℤ d then b else s.select_inputs d;
}

abbrev pub fresh : Socket → Connection
fresh socket = record {
  socket = socket;
  node_id = no_node_id;
  buffer = [];
  ip_addr = [];
  tcp_port = [];
}

abbrev pub find_free : State → Pointer
find_free s = first max_connections 0 (λ i. (s.connections i).socket ==ℤ no_socket)

abbrev pub take_free : Socket → Pointer → M ℕ
take_free socket none = fail no_connection_space
take_free socket (some i) = set_connection i (fresh socket) >> pure i

unfoldable pub add_connection : Socket → M ℕ
add_connection socket = do
  modify (set_input socket true)
  slot ← gets find_free
  take_free socket slot

abbrev pub pointer_eq : Pointer → Pointer → Bool
pointer_eq none none = true
pointer_eq none (some b) = false
pointer_eq (some a) none = false
pointer_eq (some a) (some b) = a == b

-- `if (p == connection) p = NULL`
abbrev pub forget : ℕ → Pointer → Pointer
forget i p = if pointer_eq p (some i) then none else p

abbrev pub close_at : ℕ → Socket → State → State
close_at i socket s = record (set_input socket false s) {
  connections = update s.connections i (record (s.connections i) { socket = no_socket });
  new_node_conn = forget i s.new_node_conn;
  pred_conn = forget i s.pred_conn;
  succ_conn = forget i s.succ_conn;
  outbound_chord_conn = forget i s.outbound_chord_conn;
  history = closed socket ∷ s.history;
}

abbrev pub close_open : ℕ → Socket → M (Unit {0})
close_open i socket = if socket ==ℤ no_socket then skip else modify (close_at i socket)

-- No caller reads the value that the C function returns.
unfoldable pub close_connection : Pointer → M (Unit {0})
close_connection none = skip
close_connection (some i) = connection i >>= λ c. close_open i c.socket

abbrev pub by_socket : State → Socket → Pointer
by_socket s socket = first max_connections 0 (λ i. (s.connections i).socket ==ℤ socket)

abbrev pub by_node_id : State → NodeId → Pointer
by_node_id s id =
    first max_connections 0
      (λ i. not ((s.connections i).socket ==ℤ no_socket) && (s.connections i).node_id ==ℤ id)

unfoldable pub find_connection_by_socket : Socket → M Pointer
find_connection_by_socket socket = gets (λ s. by_socket s socket)

unfoldable pub find_connection_by_node_id : NodeId → M Pointer
find_connection_by_node_id id = gets (λ s. by_node_id s id)

unfoldable pub is_inbound_chord : State → Pointer → Bool
is_inbound_chord s conn =
    not (pointer_eq conn s.new_node_conn)
    && not (pointer_eq conn s.pred_conn)
    && not (pointer_eq conn s.succ_conn)
    && not (pointer_eq conn s.outbound_chord_conn)

-- `MAX_NODE_MESSAGE_SIZE - 1`: what `vsnprintf` keeps of a message.
abbrev pub max_message_length : ℕ
max_message_length = 255

-- The first half of `conn_printf`: the message is cut to its buffer and written. The other half,
-- what follows a failure, is `Ring.Knot.conn_printf`.
unfoldable pub write_message : System → Socket → Text → M Bool
write_message sys socket text = do
  h ← gets (λ s. s.history)
  let message = take max_message_length text
  let sent = sys.writes h socket message
  log (wrote socket message sent)
  pure sent
