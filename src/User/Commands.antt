-- ===== src/User/Commands.antt =====
-- main.c: the other commands of `handle_user_input`.
use projeto_rci.Base.{
  ℕ, Bool, true, false, not, Option, none, some, [], ◌∷◌, ◌++◌, ◌==◌, ◌==ℤ◌, if◌then◌else◌, length,
}
use projeto_rci.Node.{NodeId, Text, codes}
use projeto_rci.Machine.{
  Socket, Pointer, connected, awaiting_node_list, join_action, chord_action, said, System, State, M,
  ◌>>=◌, ◌>>◌, gets, modify, log, when, connection,
}
use projeto_rci.Connections.{close_connection, find_connection_by_node_id}
use projeto_rci.Announce.{forward_message, remove_routing_neighbor}
use projeto_rci.Wire.Scan.{scan_id, scan_word}
use projeto_rci.Wire.Print.{print_id}
use projeto_rci.Ring.Join.{is_connected, is_disconnected, is_null, leave_ring, join_ring}
use projeto_rci.NodeServer.{request_node_list}
use projeto_rci.User.Input.{word_skipped, arguments, convert, scan_argument, print_plain, print}

-- The conversions store what they have read before the command looks at anything else.
abbrev pub set_ring_id : Text → State → State
set_ring_id text s = record s { ring_id_str = text }

abbrev pub set_self_id : NodeId → State → State
set_self_id id s = record s { self = record (s.self) { id = id } }

abbrev pub set_succ_id : NodeId → State → State
set_succ_id id s = record s { succ = record (s.succ) { id = id } }

abbrev pub set_succ_ip_addr : Text → State → State
set_succ_ip_addr text s = record s { succ = record (s.succ) { ip_addr = text } }

abbrev pub set_succ_tcp_port : Text → State → State
set_succ_tcp_port text s = record s { succ = record (s.succ) { tcp_port = text } }

-- "%*s %3s %hhd"
abbrev pub scan_join : Text → M (Option Text)
scan_join input =
    convert (scan_word 3) set_ring_id (word_skipped (some input)) >>= convert scan_id set_self_id

-- "%*s %hhd %hhd %15s %5s", or with one word more for the long name
abbrev pub scan_direct_join : Option Text → M (Option Text)
scan_direct_join text =
    convert scan_id set_self_id text
    >>= convert scan_id set_succ_id
    >>= convert (scan_word 15) set_succ_ip_addr
    >>= convert (scan_word 5) set_succ_tcp_port

-- A ring of this node alone. The routing tables are left as they are.
abbrev pub alone : State → State
alone s = record s {
  ring_id_str = [];
  succ = s.self;
  second_succ = s.self;
  connection_state = connected;
  awaiting_pred = false;
  awaiting_succ = false;
}

abbrev pub request_join : System → M (Unit {0})
request_join sys = do
  modify (λ s. record s { connection_state = awaiting_node_list; node_list_action = join_action })
  ring_id_str ← gets (λ s. s.ring_id_str)
  request_node_list sys ring_id_str

abbrev pub join_scanned : System → Option Text → M (Unit {0})
join_scanned sys none = print (codes "Missing parameters for join command.\n")
join_scanned sys (some rest) = do
  s ← gets (λ s. s)
  if not (length s.ring_id_str == 3)
      then print (codes "Wrong length for ring ID.\n")
      else if not (is_disconnected s.connection_state)
      then print (
          codes
            "We are already connected to a ring or connecting to one. Use the leave command first.\n")
      else request_join sys

unfoldable pub join_command : System → Text → M (Unit {0})
join_command sys input = scan_join input >>= join_scanned sys

unfoldable pub leave_command : System → M (Unit {0})
leave_command sys = do
  s ← gets (λ s. s)
  if is_disconnected s.connection_state
      then print (codes "We are not connected to a ring.\n")
      else (leave_ring sys >> print (codes "Left the ring.\n"))

abbrev pub request_chord : System → Text → M (Unit {0})
request_chord sys ring_id_str =
    modify (λ s. record s { node_list_action = chord_action }) >> request_node_list sys ring_id_str

abbrev pub chord_in : System → State → M (Unit {0})
chord_in sys s =
    if not (is_connected s.connection_state)
    then print (codes "We are not connected to a ring.\n")
    else if not (is_null s.outbound_chord_conn)
    then print (codes "There is already an outbound chord.\n")
    else request_chord sys s.ring_id_str

unfoldable pub chord_command : System → M (Unit {0})
chord_command sys = gets (λ s. s) >>= chord_in sys

module _ (sys : System) (conn_printf : Socket → Text → M Bool) where
  abbrev pub direct_join_scanned : Option Text → M (Unit {0})
  direct_join_scanned none = print (codes "Missing parameters for direct join command.\n")
  direct_join_scanned (some rest) = do
    s ← gets (λ s. s)
    if s.succ.id ==ℤ s.self.id
        then modify alone
        else (do modify (λ s. record s { ring_id_str = [] }); join_ring sys conn_printf)

  -- `short` says that the command is given by its short name.
  unfoldable pub direct_join_command : Bool → Text → M (Unit {0})
  direct_join_command short input = scan_direct_join (arguments short input) >>= direct_join_scanned

  abbrev pub remove_chord_to : ℕ → NodeId → M (Unit {0})
  remove_chord_to i id = do
    close_connection (some i)
    conn ← find_connection_by_node_id id
    when (is_null conn) (remove_routing_neighbor conn_printf id)
    print (codes "Outbound chord with node " ++ (print_id id ++ codes " removed.\n"))

  abbrev pub remove_chord : Pointer → M (Unit {0})
  remove_chord none = print (codes "There is currently no outbound chord.\n")
  remove_chord (some i) = connection i >>= λ c. remove_chord_to i c.node_id

  abbrev pub remove_chord_in : State → M (Unit {0})
  remove_chord_in s =
      if not (is_connected s.connection_state)
      then print (codes "We are not connected to a ring.\n")
      else remove_chord s.outbound_chord_conn

  unfoldable pub remove_chord_command : M (Unit {0})
  remove_chord_command = gets (λ s. s) >>= remove_chord_in

  abbrev pub tell_sent : NodeId → Bool → M (Unit {0})
  tell_sent id true = print (codes "Message sent.\n")
  tell_sent id false = print (
      codes "Couldn't send a message to the node "
      ++ (print_plain id
          ++ codes
              " because there are no known valid paths to that node. Check if you entered the correct ID.\n"))

  -- "%*s %hhd%n", and a space, behind which the message begins
  abbrev pub message_to : Option (NodeId × Text) → M (Unit {0})
  message_to none = print (codes "Missing parameters for the message command.\n")
  message_to (some (id, [])) = print (codes "Missing parameters for the message command.\n")
  message_to (some (id, c ∷ chat_message)) =
      if not (c == 32) then print (codes "Missing parameters for the message command.\n") else (do
        self ← gets (λ s. s.self)
        if id ==ℤ self.id
            then log (said self.id chat_message)
            else (do sent ← forward_message conn_printf self.id id chat_message; tell_sent id sent))

  unfoldable pub message_command : Text → M (Unit {0})
  message_command input = message_to (scan_argument scan_id (word_skipped (some input)))
