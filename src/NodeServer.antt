-- ===== src/NodeServer.antt =====
-- node-server.c: asking the node server for the nodes of a ring, and what follows its answer.
--
-- `init_ns` only opens a socket and looks an address up; it is left out.
pub mod Laws
pub mod Halting
pub mod Safety
pub mod Joining
pub mod Choice
mod Tests
use projeto_rci.Base.{
  ℕ, zero, suc, ◌+◌, Bool, true, false, not, ◌&&◌, ◌||◌, Option, none, some, List, [], ◌∷◌, ◌++◌,
  pos, ◌==◌, ◌==ℤ◌, if◌then◌else◌, length, get_or, take, drop, ltb,
}
use projeto_rci.Node.{
  NodeId, Text, codes, Node, max_nodes, malformed_node_list, select_error, out_of_bounds, Stop,
  Result, ok, stop,
}
use projeto_rci.ReadLines.{newline, c_string}
use projeto_rci.Machine.{
  disconnected, awaiting_user_selection, join_node_selection, chord_node_selection, NodeListAction,
  unexpected_node_list, join_action, chord_action, NodeListAnswer, select_failed, timed_out,
  receive_failed, answered, requested, Pointer, System, State, M, ◌>>=◌, ◌>>◌, pure, skip, fail,
  gets, modify, lift, log, when,
}
use projeto_rci.Routing.Tables.{init_routing}
use projeto_rci.Connections.{by_node_id}
use projeto_rci.Wire.Scan.{scan_entry, read}
use projeto_rci.Timer.{Timer}
use projeto_rci.Ring.Join.{send_array, leave_ring, on_join_end, init_tables, is_null}

-- `strncmp(text, prefix, length of the prefix) == 0`
abbrev pub starts_with : Text → Text → Bool
starts_with [] s = true
starts_with (c ∷ p) [] = false
starts_with (c ∷ p) (d ∷ s) = let rest = starts_with p s in c == d && rest

-- One round of the loop, with what `sscanf` has read. `node_arr.nodes` has room for 16 nodes, which
-- the loop does not check.
unfoldable pub add_entry : (NodeId → Bool) → List Node → Option Node → Result (List Node)
add_entry keep nodes none = stop malformed_node_list
add_entry keep nodes (some node) =
    if ltb (length nodes) max_nodes
    then ok (if keep node.id then nodes ++ (node ∷ []) else nodes)
    else stop out_of_bounds

abbrev pub next_entry : Result (List Node) → (List Node → Result (List Node)) → Result (List Node)
next_entry (ok nodes) f = f nodes
next_entry (stop e) f = stop e

-- The loop over the bytes of the answer from `i` on. An entry is read where a line starts, from
-- what stands in the buffer from there on.
unfoldable pub node_entries : (NodeId → Bool) → Text → Bool → List Node → Text → Result (List Node)
node_entries keep behind line_starts nodes [] = ok nodes
node_entries keep behind true nodes (c ∷ s) =
    next_entry (add_entry keep nodes (read scan_entry (c_string ((c ∷ s) ++ behind))))
      (λ nodes'. node_entries keep behind (c == newline) nodes' s)
node_entries keep behind false nodes (c ∷ s) = node_entries keep behind (c == newline) nodes s

-- The character at the end of the answer; there is none before the buffer.
abbrev pub ends_line : Text → Result Bool
ends_line [] = stop out_of_bounds
ends_line (c ∷ s) = ok (get_or (c ∷ s) (length s) 0 == newline)

abbrev pub if_ends : Result Bool → Result (List Node) → Result (List Node)
if_ends (stop e) r = stop e
if_ends (ok false) r = stop malformed_node_list
if_ends (ok true) r = r

-- `message` is the answer, and `behind` what stands behind it in the buffer.
unfoldable pub parse_node_list : (NodeId → Bool) → Text → Text → Result (List Node)
parse_node_list keep message behind =
    if not (get_or (message ++ behind) 13 0 == newline)
    then stop malformed_node_list
    else if_ends (ends_line message) (node_entries keep behind true [] (drop 14 message))

-- Which nodes are kept: for a chord, those that this node is not connected to.
abbrev pub kept_node : State → NodeListAction → NodeId → Bool
kept_node s chord_action id = not (s.self.id ==ℤ id) && is_null (by_node_id s id)
kept_node s _ id = true

abbrev pub in_use : List Node → NodeId → Bool
in_use [] id = false
in_use (node ∷ nodes) id = let rest = in_use nodes id in node.id ==ℤ id || rest

-- The loop over `new_id`, with the rounds left.
unfoldable pub free_id : List Node → ℕ → ℕ → ℕ
free_id nodes zero id = id
free_id nodes (suc n) id =
    let rest = free_id nodes n (suc id) in if in_use nodes (pos id) then rest else id

-- Where the node's own identifier is taken. With no identifier left, the state is set, and the
-- procedure goes on all the same.
abbrev pub take_id : ℕ → State → State
take_id id s =
    let state = if ltb id 100 then s.connection_state else disconnected in
    record s { connection_state = state; self = record (s.self) { id = pos id } }

unfoldable pub choose_id : State → State
choose_id s = if in_use s.node_arr s.self.id then take_id (free_id s.node_arr 100 0) s else s

-- This node is the only one.
abbrev pub start_ring : State → State
start_ring s = init_tables (record s { succ = s.self; second_succ = s.self })

abbrev pub is_none : List Node → Bool
is_none [] = true
is_none (n ∷ ns) = false

module _ (sys : System) where
  abbrev pub list_received : NodeListAction → M (Unit {0})
  list_received unexpected_node_list = skip
  list_received join_action = do
    nodes ← gets (λ s. s.node_arr)
    if is_none nodes then (modify start_ring >> on_join_end sys) else (do
      modify choose_id
      modify (λ s. record s {
        connection_state = awaiting_user_selection;
        input_state = join_node_selection;
      }))
  list_received chord_action = do
    nodes ← gets (λ s. s.node_arr)
    if is_none nodes then skip else modify (λ s. record s { input_state = chord_node_selection })

  abbrev pub list_parsed : NodeListAction → Result (List Node) → M (Unit {0})
  list_parsed action r = do
    nodes ← lift r
    modify (λ s. record s { node_arr = nodes })
    list_received action

  abbrev pub node_list_in : Text → Text → State → M (Unit {0})
  node_list_in message behind s =
      if starts_with (codes "NODESLIST ") (message ++ behind)
      then list_parsed s.node_list_action
          (parse_node_list (kept_node s s.node_list_action) message behind)
      else skip

  abbrev pub node_list : Text → Text → M (Unit {0})
  node_list message behind = gets (λ s. s) >>= node_list_in message behind

  abbrev pub handle_answer : NodeListAnswer → M (Unit {0})
  handle_answer select_failed = fail select_error
  handle_answer timed_out = leave_ring sys
  handle_answer (receive_failed behind) = node_list [] behind
  handle_answer (answered message behind) = node_list message behind

  abbrev pub ask_nodes : M (Unit {0})
  ask_nodes = gets (λ s. sys.node_list s.history) >>= λ answer.
      log (requested answer) >> handle_answer answer

  -- `nodes_msg` is sent whole.
  unfoldable pub request_node_list : Text → M (Unit {0})
  request_node_list ring_id_str = do send_array sys 10 10 (codes "NODES " ++ ring_id_str); ask_nodes
