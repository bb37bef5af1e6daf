-- ===== src/User.antt =====
-- main.c: `handle_user_input`, the handler of a line that the user has typed.
--
-- Left out are the texts that only a verbose run shows.
pub mod Input
pub mod Select
pub mod Show
pub mod Commands
pub mod Kept
pub mod Joining
pub mod Safety
pub mod Loose
mod Tests
use projeto_rci.Base.{ℕ, Bool, true, false, Option, none, some, ◌++◌, if◌then◌else◌}
use projeto_rci.Node.{Text, codes}
use projeto_rci.Machine.{
  Socket, InputState, command, join_node_selection, chord_node_selection, System, State, M, ◌>>=◌,
  gets, modify, lift,
}
use Input.{input_lowercase, compare_command, either_command, print}
use Select.{select_node}
use Show.{show_topology, show_routing, show_path}
use Commands.{
  join_command, leave_command, direct_join_command, chord_command, remove_chord_command,
  message_command,
}

module _ (sys : System) (conn_printf : Socket → Text → M Bool) where
  -- `lower` is the input in lower case, by which the commands are told apart.
  unfoldable pub run_command : Text → Text → M (Unit {0})
  run_command input lower =
      if either_command (codes "join") (codes "j") lower
      then join_command sys input
      else if either_command (codes "leave") (codes "l") lower
      then leave_command sys
      else if either_command (codes "direct join") (codes "dj") lower
      then direct_join_command sys conn_printf (compare_command (codes "dj") lower) input
      else if either_command (codes "chord") (codes "c") lower
      then chord_command sys
      else if either_command (codes "remove chord") (codes "rc") lower
      then remove_chord_command sys conn_printf
      else if either_command (codes "exit") (codes "x") lower
      then modify (λ s. record s { should_exit = true })
      else if either_command (codes "show topology") (codes "st") lower
      then show_topology
      else if either_command (codes "show routing") (codes "sr") lower
      then show_routing (compare_command (codes "sr") lower) input
      else if either_command (codes "show path") (codes "sp") lower
      then show_path (compare_command (codes "sp") lower) input
      else if either_command (codes "message") (codes "m") lower
      then message_command sys conn_printf input
      else print (codes "Unrecognized command: " ++ (input ++ codes "\n"))

  abbrev pub handle_in : InputState → Text → M (Unit {0})
  handle_in join_node_selection input = select_node sys conn_printf join_node_selection input
  handle_in chord_node_selection input = select_node sys conn_printf chord_node_selection input
  handle_in command input = lift (input_lowercase input) >>= run_command input

  unfoldable pub handle_user_input : Text → M (Unit {0})
  handle_user_input input = gets (λ s. s.input_state) >>= λ state. handle_in state input
