-- ===== src/User/Tests.antt =====
-- The user's commands at a concrete state.
use projeto_rci.Base.{◌≡◌, refl, true, false, [], ◌∷◌, pos}
use projeto_rci.Node.{codes, ok}
use projeto_rci.Machine.{printed, with_history}
use projeto_rci.Frame.{After}
use projeto_rci.Routing.Tests.{first_tables-IsValid}
use projeto_rci.Ring.Knot.{conn_printf}
use projeto_rci.Ring.Safety.{safety}
use projeto_rci.Ring.Tests.{state, system}
use projeto_rci.User.{handle_user_input, run_command}
use projeto_rci.User.Show.{show_path}
use projeto_rci.Base.{for_each, memcpy, memcmp}
use projeto_rci.Routing.Path.{copy_path, are_paths_equal}
use projeto_rci.Routing.Tables.{init_routing, get_recipient_index, get_neighbor_index}
use projeto_rci.Routing.Update.{
  crosses, incoming, closest, choice, write_path, update_routing_given_new_path,
}
use projeto_rci.Wire.Scan.{scan_id, scan_word, word, skip_space, number, digits}
use projeto_rci.Wire.Print.{path_to_string, print_nodes, print_id, decimal}
use projeto_rci.User.Safety.{handle_user_input-After}

handle_user_input-After_example :
    After safety state
      (handle_user_input system (conn_printf system 1) (codes "show path 30") state)
handle_user_input-After_example =
    handle_user_input-After system 1 (codes "show path 30") state first_tables-IsValid (λ i e. cc)
      (λ j. cc (j.1))

-- The name of a command is told apart from a word that begins with it.
unknown :
    handle_user_input system (conn_printf system 1) (codes "Leaves") state
    ≡ ok (tt, with_history state (printed (codes "Unrecognized command: Leaves\n") ∷ []))
unfolding handle_user_input run_command
unknown = refl

shown :
    handle_user_input system (conn_printf system 1) (codes "show path 30") state
    ≡ ok (tt, with_history state (printed (codes "Shortest path to 30: 05-10-20-30\n") ∷ []))
unfolding handle_user_input run_command show_path scan_id scan_word word skip_space number digits
    init_routing get_recipient_index get_neighbor_index projeto_rci.Base.first for_each memcpy
    memcmp projeto_rci.Base.◌==ℤ◌ copy_path are_paths_equal crosses incoming closest choice
    write_path update_routing_given_new_path path_to_string print_nodes print_id decimal
shown = refl
