-- ===== src/User/Select.antt =====
-- main.c: the first part of `handle_user_input`, the answer to the list of nodes.
use projeto_rci.Base.{
  Bool, true, false, ◌||◌, not, Option, none, some, List, [], ◌∷◌, negsuc, ◌==ℤ◌, if◌then◌else◌,
}
use projeto_rci.Node.{NodeId, Text, codes, Node}
use projeto_rci.Machine.{
  Socket, disconnected, InputState, command, join_node_selection, chord_node_selection, System,
  State, M, ◌>>=◌, ◌>>◌, skip, gets, modify, when,
}
use projeto_rci.Connections.{by_node_id}
use projeto_rci.Wire.Scan.{scan_id, read}
use projeto_rci.Ring.Join.{join_ring, create_outbound_chord, is_null}
use projeto_rci.User.Input.{print}

abbrev pub is_join_selection : InputState → Bool
is_join_selection join_node_selection = true
is_join_selection _ = false

abbrev pub selected_chord : State → NodeId → Option NodeId
selected_chord s id = if s.self.id ==ℤ id || not (is_null (by_node_id s id)) then none else some id

-- The identifier that was typed, `none` where the operation is cancelled. It stays -1 where a chord's
-- cannot be read.
abbrev pub selected_id : State → InputState → Option NodeId → Option NodeId
selected_id s join_node_selection id = id
selected_id s chord_node_selection none = selected_chord s (negsuc 0)
selected_id s chord_node_selection (some id) = selected_chord s id
selected_id s command id = none

-- The loop over `node_arr`.
abbrev pub node_with : List Node → NodeId → Option Node
node_with [] id = none
node_with (node ∷ nodes) id =
    let rest = node_with nodes id in if node.id ==ℤ id then some node else rest

abbrev pub selected_node : List Node → Option NodeId → Option Node
selected_node nodes none = none
selected_node nodes (some id) = node_with nodes id

abbrev pub invalid_id : InputState → M (Unit {0})
invalid_id state = do
  print (codes "Invalid ID. Operation cancelled.\n")
  when (is_join_selection state) (modify (λ s. record s { connection_state = disconnected }))
  modify (λ s. record s { input_state = command })

module _ (sys : System) (conn_printf : Socket → Text → M Bool) where
  abbrev pub use_node : InputState → Node → M (Unit {0})
  use_node join_node_selection node =
      modify (λ s. record s { succ = node }) >> join_ring sys conn_printf
  use_node chord_node_selection node = create_outbound_chord sys conn_printf node
  use_node command node = skip

  abbrev pub selected : InputState → Option Node → M (Unit {0})
  selected state none = invalid_id state
  selected state (some node) =
      use_node state node >> modify (λ s. record s { input_state = command })

  unfoldable pub select_node : InputState → Text → M (Unit {0})
  select_node state input = do
    s ← gets (λ s. s)
    selected state (selected_node s.node_arr (selected_id s state (read scan_id input)))
