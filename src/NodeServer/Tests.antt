-- ===== src/NodeServer/Tests.antt =====
-- The choice of an identifier, for a node whose own is that of another node.
use projeto_rci.Base.{◌≡◌, refl, [], ◌∷◌, Option, none, some, pos, arith}
use projeto_rci.Node.{NodeId, Text, Node, codes, Result, ok, stop}
use projeto_rci.Machine.{join_action, State}
use projeto_rci.NodeServer.{free_id, choose_id, node_list, parse_node_list, node_entries, add_entry}
use projeto_rci.NodeServer.Joining.{Joins, node_list-Joins}
use projeto_rci.Wire.Scan.{scan_entry, scan_id, scan_word, word, skip_space, number, digits}
use projeto_rci.NodeServer.Choice.{Chooses, choose_id-Chooses}
use projeto_rci.Ring.Tests.{state, system}

abbrev listed : NodeId → Node
listed id = record { id = id; ip_addr = codes "127.0.0.1"; tcp_port = codes "58001" }

abbrev id_after : Result (Unit {0} × State) → Option NodeId
id_after (ok (u, s)) = some s.self.id
id_after (stop e) = none

-- Identifiers 0, 5 and 1 are in use, and this node is 5.
abbrev listed_state : State
listed_state = record state { node_arr = listed (pos 0) ∷ listed (pos 5) ∷ listed (pos 1) ∷ [] }

choose_id-Chooses_example : Chooses listed_state (choose_id listed_state)
choose_id-Chooses_example = choose_id-Chooses listed_state (omega arith)

takes_least : (choose_id listed_state).self.id ≡ pos 2
unfolding choose_id free_id projeto_rci.Base.◌==ℤ◌
takes_least = refl

-- A ring of one node, whose identifier is this node's too
abbrev asking : State
asking = record state { node_list_action = join_action }

abbrev answer : Text
answer = codes "NODESLIST 042\n05 127.0.0.1 58001\n"

node_list-Joins_example : Joins (node_list system answer [] asking)
node_list-Joins_example = node_list-Joins system answer [] asking refl refl

-- The node takes the identifier 0.
takes_zero : id_after (node_list system answer [] asking) ≡ some (pos 0)
unfolding choose_id free_id parse_node_list node_entries add_entry scan_entry scan_id scan_word word
    skip_space number digits projeto_rci.Base.◌==ℤ◌
takes_zero = refl
