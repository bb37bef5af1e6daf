-- ===== src/User/Show.antt =====
-- main.c: the commands of `handle_user_input` that show the node's connections, paths and messages.
use projeto_rci.Base.{
  ℕ, Bool, false, not, ◌&&◌, Option, none, some, ◌++◌, ◌==ℤ◌, if◌then◌else◌, length, ltb,
}
use projeto_rci.Node.{
  NodeId, NodeIndex, Text, codes, Node, no_node_id, max_neighbors, out_of_bounds, Result, ok, stop,
}
use projeto_rci.Machine.{
  no_socket, max_connections, Pointer, State, M, ◌>>=◌, ◌>>◌, pure, skip, fail, gets, lift, when,
  connection, for_loop,
}
use projeto_rci.Routing.Path.{RoutePath, is_invalid}
use projeto_rci.Routing.Tables.{Tables, get_recipient_index}
use projeto_rci.Connections.{is_inbound_chord}
use projeto_rci.Wire.Scan.{scan_id}
use projeto_rci.Wire.Print.{print_id, path_to_string}
use projeto_rci.Ring.Join.{is_connected}
use projeto_rci.User.Input.{arguments, scan_argument, print_left, print}

-- A row of the topology
abbrev pub print_row : Text → NodeId → Text → Text → M (Unit {0})
print_row name id ip_addr port = print (
    codes "| "
    ++ (name
        ++ (codes " | "
            ++ (print_id id
                ++ (codes " | "
                    ++ (print_left 15 ip_addr ++ (codes " | " ++ (port ++ codes " |\n"))))))))

abbrev pub print_node_row : Text → Node → M (Unit {0})
print_node_row name node = print_row name node.id node.ip_addr (print_left 5 node.tcp_port)

abbrev pub rule_line : Text
rule_line = codes "+----------------+----+-----------------+-------+\n"

abbrev pub print_pred : Pointer → M (Unit {0})
print_pred none = skip
print_pred (some i) = do
  c ← connection i
  when (not (c.node_id ==ℤ no_node_id))
      (print_row (codes "Predecessor   ") c.node_id c.ip_addr (codes "  -  "))

abbrev pub print_outbound : Pointer → M (Unit {0})
print_outbound none = skip
print_outbound (some i) = do
  c ← connection i
  print_row (codes "Outbound chord") c.node_id c.ip_addr (print_left 5 c.tcp_port)

abbrev pub print_inbound : ℕ → M (Unit {0})
print_inbound i = do
  s ← gets (λ s. s)
  let c = s.connections i
  when (not (c.socket ==ℤ no_socket) && is_inbound_chord s (some i))
      (print_row (codes "Inbound chord ") c.node_id c.ip_addr (codes "  -  "))

abbrev pub print_topology : State → M (Unit {0})
print_topology s = do
  print (rule_line ++ (codes "| Node           | ID | IP address      | Port  |\n" ++ rule_line))
  print_pred s.pred_conn
  print_node_row (codes "This node     ") s.self
  print_node_row (codes "Successor     ") s.succ
  print_node_row (codes "Second succ.  ") s.second_succ
  print_outbound s.outbound_chord_conn
  for_loop max_connections 0 print_inbound
  print rule_line

unfoldable pub show_topology : M (Unit {0})
show_topology = do
  s ← gets (λ s. s)
  if is_connected s.connection_state
      then print_topology s
      else print (codes "The node isn't connected.\n")

-- `path_str`, a buffer of `MAX_PATH_STR_SIZE` bytes
abbrev pub bounded : Result Text → Result Text
bounded (ok text) = if ltb (length text) 48 then ok text else stop out_of_bounds
bounded (stop e) = stop e

abbrev pub path_str : NodeId → NodeId → RoutePath → Result Text
path_str self recipient_id path = bounded (path_to_string self recipient_id path)

abbrev pub no_path : NodeId → M (Unit {0})
no_path recipient_id = print (
    codes "There are no known valid paths to the node "
    ++ (print_id recipient_id ++ codes ". It might not be in the ring.\n"))

abbrev pub show_path_via : NodeId → NodeId → RoutePath → M (Unit {0})
show_path_via self recipient_id path =
    if is_invalid path
    then print (codes "(no valid path)\n")
    else (do text ← lift (path_str self recipient_id path); print (text ++ codes "\n"))

-- The round of the loop for one neighbor
abbrev pub show_column : NodeId → ℕ → ℕ → M (Unit {0})
show_column recipient_id recipient neighbor = do
  s ← gets (λ s. s)
  let neighbor_id = s.tables.neighbor_ids neighbor
  if neighbor_id ==ℤ no_node_id then skip else (do
    print (codes "    Via " ++ (print_id neighbor_id ++ codes ": "))
    show_path_via s.self.id recipient_id (s.tables.routing_table recipient neighbor))

abbrev pub show_paths : NodeId → NodeId → NodeIndex → M (Unit {0})
show_paths self recipient_id none = no_path recipient_id
show_paths self recipient_id (some recipient) = do
  print (
      codes "Possible paths from the node "
      ++ (print_id self ++ (codes " to the node " ++ (print_id recipient_id ++ codes ":\n"))))
  for_loop max_neighbors 0 (show_column recipient_id recipient)

abbrev pub show_routing_to : NodeId → M (Unit {0})
show_routing_to recipient_id = do
  s ← gets (λ s. s)
  if recipient_id ==ℤ s.self.id
      then print (codes "There's no need for routing when you're sending messages to yourself.\n")
      else (do
        (recipient, _) ← lift (get_recipient_index s.tables recipient_id false)
        show_paths s.self.id recipient_id recipient)

-- `routing_table[recipient][forwarding_table[recipient]]`
abbrev pub shortest_path : Tables → NodeIndex → NodeIndex → M RoutePath
shortest_path t none _ = fail out_of_bounds
shortest_path t (some recipient) none = fail out_of_bounds
shortest_path t (some recipient) (some neighbor) = pure (t.routing_table recipient neighbor)

abbrev pub show_shortest : State → NodeId → NodeIndex → M (Unit {0})
show_shortest s recipient_id none = no_path recipient_id
show_shortest s recipient_id (some recipient) = do
  path ← shortest_path s.tables (some recipient) (s.tables.forwarding_table recipient)
  text ← lift (path_str s.self.id recipient_id path)
  print
      (codes "Shortest path to " ++ (print_id recipient_id ++ (codes ": " ++ (text ++ codes "\n"))))

abbrev pub show_path_to : NodeId → M (Unit {0})
show_path_to recipient_id = do
  s ← gets (λ s. s)
  (recipient, _) ← lift (get_recipient_index s.tables recipient_id false)
  show_shortest s recipient_id recipient

-- Both commands complain of missing parameters in the same words.
abbrev pub with_recipient : (NodeId → M (Unit {0})) → Option (NodeId × Text) → M (Unit {0})
with_recipient show none = print (codes "Missing parameters for the show routing command.\n")
with_recipient show (some (id, rest)) = show id

-- `short` says that the command is given by its short name.
unfoldable pub show_routing : Bool → Text → M (Unit {0})
show_routing short input =
    with_recipient show_routing_to (scan_argument scan_id (arguments short input))

unfoldable pub show_path : Bool → Text → M (Unit {0})
show_path short input = with_recipient show_path_to (scan_argument scan_id (arguments short input))
