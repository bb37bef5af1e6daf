-- ===== src/Ring/Join.antt =====
-- The functions of ring.c that open connections, join a ring and leave it.
use projeto_rci.Base.{
  ℕ, Bool, true, false, not, ◌&&◌, Option, none, some, [], pos, ◌∷◌, ◌++◌, ◌==ℤ◌, if◌then◌else◌,
  take, ltb, length,
}
use projeto_rci.Node.{NodeId, Text, codes, Node, no_node_id, node_server_error, out_of_bounds}
use projeto_rci.Machine.{
  Socket, Connection, max_connections, Pointer, ConnectionState, disconnected, connecting,
  connected, created, resolved, connected_to, sent, read_clock, System, State, M, ◌>>=◌, ◌>>◌, pure,
  skip, fail, gets, modify, log, when, connection, update_connection, for_loop,
}
use projeto_rci.Routing.Tables.{init_routing}
use projeto_rci.Timer.{set_timeout}
use projeto_rci.Connections.{add_connection, close_connection, find_connection_by_node_id}
use projeto_rci.Announce.{send_shortest_paths, remove_routing_neighbor}
use projeto_rci.Wire.Print.{print_id}

abbrev pub is_connected : ConnectionState → Bool
is_connected connected = true
is_connected _ = false

abbrev pub is_connecting : ConnectionState → Bool
is_connecting connecting = true
is_connecting _ = false

abbrev pub is_disconnected : ConnectionState → Bool
is_disconnected disconnected = true
is_disconnected _ = false

abbrev pub is_null : Pointer → Bool
is_null none = true
is_null (some i) = false

abbrev pub is_empty : Text → Bool
is_empty [] = true
is_empty (c ∷ s) = false

-- `socket->...` of a connection that is there
abbrev pub socket_of : ℕ → M Socket
socket_of i = connection i >>= λ c. pure c.socket

abbrev pub init_tables : State → State
init_tables s = record s { tables = init_routing s.tables }

-- "<word> <id> <address> <port>"
abbrev pub node_message : Text → Text → Node → Text
node_message name id node =
    name ++ (id ++ (codes " " ++ (node.ip_addr ++ (codes " " ++ (node.tcp_port ++ codes "\n")))))

module _ (conn_printf : Socket → Text → M Bool) where
  -- `conn_printf(...) < 0 || send_shortest_paths(...) < 0`, negated
  abbrev pub greet : ℕ → Text → M Bool
  greet conn message = do
    socket ← socket_of conn
    sent_all ← conn_printf socket message
    if sent_all then send_shortest_paths conn_printf conn else pure false

  -- The routing tables forget a neighbor to which no connection is left.
  unfoldable pub remove_neighbor_connection : NodeId → M (Unit {0})
  remove_neighbor_connection node_id = if node_id ==ℤ no_node_id then skip else (do
    conn ← find_connection_by_node_id node_id
    when (is_null conn) (remove_routing_neighbor conn_printf node_id))

abbrev pub named : Node → Connection → Connection
named node c = record c { node_id = node.id; ip_addr = node.ip_addr; tcp_port = node.tcp_port }

-- The node server knows the ring of a connected node, unless it was joined directly.
abbrev pub is_registered : State → Bool
is_registered s = is_connected s.connection_state && not (is_empty s.ring_id_str)

-- "UNREG <ring> <id>"
abbrev pub unreg_text : State → Text
unreg_text s = codes "UNREG " ++ (s.ring_id_str ++ (codes " " ++ print_id s.self.id))

-- "REG <ring> <id> <address> <port>"
abbrev pub reg_text : State → Text
reg_text s =
    codes "REG "
    ++ (s.ring_id_str
        ++ (codes " "
            ++ (print_id s.self.id
                ++ (codes " " ++ (s.self.ip_addr ++ (codes " " ++ s.self.tcp_port))))))

module _ (sys : System) where
  unfoldable pub send_ns_message : Text → M (Unit {0})
  send_ns_message message = do
    h ← gets (λ s. s.history)
    let done = sys.sends h message
    log (sent message done)
    if done then skip else fail node_server_error

  -- `sprintf` into an array of `size` bytes, of which `n` are sent. A null character follows the text.
  abbrev pub send_array : ℕ → ℕ → Text → M (Unit {0})
  send_array size n text =
      if ltb (length text) size
      then send_ns_message (take n (text ++ (0 ∷ sys.unwritten 0 ∷ sys.unwritten 1 ∷ [])))
      else fail out_of_bounds

  unfoldable pub start_timeout : ℕ → M (Unit {0})
  start_timeout ms = do
    h ← gets (λ s. s.history)
    log read_clock
    modify (λ s. record s { timer = set_timeout (sys.clock h) ms s.timer })

  abbrev pub connect_socket : ℕ → Socket → M Pointer
  connect_socket conn socket = do
    h ← gets (λ s. s.history)
    let done = sys.connects h socket
    log (connected_to socket done)
    pure (if done then some conn else none)

  -- In the place `conn` of the array
  abbrev pub connect_at : Node → Socket → ℕ → M Pointer
  connect_at node socket conn = do
    update_connection conn (named node)
    h ← gets (λ s. s.history)
    let found = sys.resolves h node.ip_addr node.tcp_port
    log (resolved node.ip_addr node.tcp_port found)
    if found then connect_socket conn socket else pure none

  -- With the socket open. A failure returns NULL and leaves the connection in the array.
  abbrev pub connect_via : Node → Socket → M Pointer
  connect_via node socket = add_connection socket >>= connect_at node socket

  abbrev pub connect_with : Node → Option ℕ → M Pointer
  connect_with node none = pure none
  connect_with node (some socket) = connect_via node (pos socket)

  unfoldable pub connect_to_node : Node → M Pointer
  connect_to_node node = do
    h ← gets (λ s. s.history)
    let socket = sys.new_socket h
    log (created socket)
    connect_with node socket

  -- `succ_conn = connect_to_node(&succ)`
  unfoldable pub connect_succ : M Pointer
  connect_succ = do
    succ ← gets (λ s. s.succ)
    conn ← connect_to_node succ
    modify (λ s. record s { succ_conn = conn })
    pure conn

  -- `outbound_chord_conn = connect_to_node(node)`
  unfoldable pub connect_outbound_chord : Node → M Pointer
  connect_outbound_chord node = do
    conn ← connect_to_node node
    modify (λ s. record s { outbound_chord_conn = conn })
    pure conn

  -- `UNREG`, if the ring is known to the node server
  abbrev pub unregister : M (Unit {0})
  unregister = do s ← gets (λ s. s); when (is_registered s) (send_array 13 12 (unreg_text s))

  unfoldable pub leave_ring : M (Unit {0})
  leave_ring = do
    unregister
    for_loop max_connections 0 (λ i. close_connection (some i))
    modify (λ s. record s { connection_state = disconnected })

  -- `REG`, unless the ring was joined directly
  abbrev pub register : M (Unit {0})
  register = do
    s ← gets (λ s. s)
    when (not (is_empty s.ring_id_str)) (send_array 33 (length (reg_text s)) (reg_text s))

  unfoldable pub on_join_end : M (Unit {0})
  on_join_end = do modify (λ s. record s { connection_state = connected }); register

  module _ (conn_printf : Socket → Text → M Bool) where
    abbrev pub join_via : Pointer → M (Unit {0})
    join_via none = leave_ring
    join_via (some conn) = do
      self ← gets (λ s. s.self)
      greeted ← greet conn_printf conn (node_message (codes "ENTRY ") (print_id self.id) self)
      when greeted (start_timeout 1000)

    -- What follows the initialisation of the tables.
    abbrev pub join_initialised : M (Unit {0})
    join_initialised = do
      modify (λ s. record s {
        connection_state = connecting;
        awaiting_succ = true;
        awaiting_pred = true;
        pred_conn = none;
        outbound_chord_conn = none;
        new_node_conn = none;
      })
      conn ← connect_succ
      join_via conn

    unfoldable pub join_ring : M (Unit {0})
    join_ring = modify init_tables >> join_initialised

    abbrev pub chord_via : Pointer → M (Unit {0})
    chord_via none = skip
    chord_via (some conn) = do
      self ← gets (λ s. s.self)
      greet conn_printf conn (codes "CHORD " ++ (print_id self.id ++ codes "\n")) >> skip

    -- A node that is connected already is warned about, and connected to again.
    unfoldable pub create_outbound_chord : Node → M (Unit {0})
    create_outbound_chord node = do conn ← connect_outbound_chord node; chord_via conn
