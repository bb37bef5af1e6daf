-- ===== src/User/Safety.antt =====
-- The user's input and the well-formedness of the tables.
use projeto_rci.Base.{ℕ, ◌≡◌, ◌≢◌, refl, sym, subst, Bool, true, false, Option, none, some, ◌++◌}
use projeto_rci.Node.{Text, codes, Node, no_node_id, Result, ok, stop}
use projeto_rci.Routing.Invariant.{init_routing-IsValid}
use projeto_rci.Machine.{
  Socket, Pointer, State, System, ◌>>=◌, modify, lift, chord_action, InputState, command,
  join_node_selection, chord_node_selection,
}
use projeto_rci.Failures.{failures_le}
use projeto_rci.Frame.{After, After-bind, Keeps, modify-Keeps, log-Keeps}
use projeto_rci.Ring.Shrinking.{Good}
use projeto_rci.Ring.Safety.{safety, weaken}
use projeto_rci.Ring.Removal.{conn_printf-Keeps, removes_used-Keeps}
use projeto_rci.Ring.Knot.{conn_printf}
use projeto_rci.Ring.Join.{join_ring, init_tables}
use projeto_rci.User.{run_command, handle_in, handle_user_input}
use projeto_rci.User.Input.{input_lowercase, either_command, print}
use projeto_rci.User.Select.{use_node, selected, select_node}
use projeto_rci.User.Show.{show_topology, show_routing, show_path}
use projeto_rci.User.Commands.{
  leave_command, request_chord, chord_in, chord_command, remove_chord, remove_chord_in,
  remove_chord_command, message_command,
}
use projeto_rci.User.Kept.{
  invalid_id-Keeps, join_initialised-Keeps, create_outbound_chord-Keeps, leave_command-Keeps,
  show_topology-Keeps, show_routing-Keeps, show_path-Keeps, message_command-Keeps,
  remove_chord_to-Keeps,
}
use projeto_rci.Ring.SafeAt.{After-from, SafeAt, if-SafeAt, modify-SafeAt, Keeps-SafeAt}
use projeto_rci.User.Joining.{is_joining, IsJoining, or_left, or_right, lowercase_of}
use projeto_rci.NodeServer.Safety.{request-SafeAt}

print-SafeAt : {s : State} → Good s → (text : Text) → SafeAt s (print text)
print-SafeAt g text = Keeps-SafeAt g (log-Keeps safety _)

-- The outbound chord leads to a node whose identifier is known.
abbrev pub IsChordKnown : State → Type 0
IsChordKnown s = (i : ℕ) → s.outbound_chord_conn ≡ some i → (s.connections i).node_id ≢ no_node_id

module _ (sys : System) (fuel : ℕ) where
  printf : (socket : Socket) (text : Text) → Keeps safety (conn_printf sys fuel socket text)
  printf socket text = weaken (conn_printf-Keeps sys fuel socket text)

  -- Whatever the tables held, a call of `join_ring` that returns leaves well-formed tables, and this
  -- node's own identifier and address as they were.
  pub join_ring-After : (s : State) → After safety s (join_ring sys (conn_printf sys fuel) s)
  unfolding join_ring
  join_ring-After s = After-from s (init_tables s) (join_ring sys (conn_printf sys fuel) s) refl (
      (join_initialised-Keeps safety (conn_printf sys fuel) printf sys).run (init_tables s)
        (init_routing-IsValid s.self.id s.tables))

  use_node-After :
      (state : InputState) (node : Node) (s : State)
      → Good s
      → After safety s (use_node sys (conn_printf sys fuel) state node s)
  use_node-After join_node_selection node s g =
      After-from s (record s { succ = node }) _ refl (join_ring-After (record s { succ = node }))
  use_node-After chord_node_selection node s g =
      (create_outbound_chord-Keeps safety (conn_printf sys fuel) printf sys node).run s g
  use_node-After command node s g =
      safety.stays s s g refl refl (λ v. v) (λ w. w) (failures_le s.history)

  selected-After :
      (state : InputState) (r : Option Node) (s : State)
      → Good s
      → After safety s (selected sys (conn_printf sys fuel) state r s)
  selected-After state none s g = (invalid_id-Keeps safety state).run s g
  selected-After state (some node) s g =
      After-bind safety s (use_node sys (conn_printf sys fuel) state node s) _
        (use_node-After state node s g)
        (λ _.
          modify-Keeps safety _ (λ s. refl) (λ s. refl) (λ s v. v) (λ s w. w)
            (λ s. failures_le s.history))

  chord-SafeAt : (s : State) → Good s → SafeAt s (chord_command sys)
  unfolding chord_command
  chord-SafeAt s g = record { run = inside.run }
    where
      says : (text : Text) → SafeAt s (print text)
      says = print-SafeAt g

      requests : SafeAt s (request_chord sys s.ring_id_str)
      requests =
          modify-SafeAt (λ s. record s { node_list_action = chord_action }) refl
            (request-SafeAt sys s.ring_id_str (record s { node_list_action = chord_action }) g refl)

      inside : SafeAt s (chord_in sys s)
      inside =
          if-SafeAt _ (says (codes "We are not connected to a ring.\n"))
            (if-SafeAt _ (says (codes "There is already an outbound chord.\n")) requests)

  remove_chord-SafeAt :
      (p : Pointer) (s : State)
      → Good s
      → ((i : ℕ) → p ≡ some i → (s.connections i).node_id ≢ no_node_id)
      → SafeAt s (remove_chord sys (conn_printf sys fuel) p)
  remove_chord-SafeAt none s g known = print-SafeAt g _
  remove_chord-SafeAt (some i) s g known = record {
    run =
        let id = (s.connections i).node_id in
        (remove_chord_to-Keeps safety (conn_printf sys fuel) printf sys i id (
            weaken (
              removes_used-Keeps (conn_printf sys fuel) (conn_printf-Keeps sys fuel) id
                (known i refl)))).run
          s g;
  }

  remove-SafeAt :
      (s : State)
      → Good s
      → IsChordKnown s
      → SafeAt s (remove_chord_command sys (conn_printf sys fuel))
  unfolding remove_chord_command
  remove-SafeAt s g known = record { run = inside.run }
    where
      says : (text : Text) → SafeAt s (print text)
      says = print-SafeAt g

      removes : SafeAt s (remove_chord sys (conn_printf sys fuel) s.outbound_chord_conn)
      removes = remove_chord-SafeAt s.outbound_chord_conn s g known

      inside : SafeAt s (remove_chord_in sys (conn_printf sys fuel) s)
      inside = if-SafeAt _ (says (codes "We are not connected to a ring.\n")) removes

  run_command-SafeAt :
      (input lower : Text) (s : State)
      → Good s
      → IsChordKnown s
      → is_joining lower ≡ false
      → SafeAt s (run_command sys (conn_printf sys fuel) input lower)
  unfolding run_command
  run_command-SafeAt input lower s g known other =
      let joins = either_command (codes "join") (codes "j") lower in
      let joins_directly = either_command (codes "direct join") (codes "dj") lower in
      rw (or_left joins joins_directly other, or_right joins joins_directly other)
        (if-SafeAt _ leaves (
          if-SafeAt _ chords (
            if-SafeAt _ removes (
              if-SafeAt _ exits (
                if-SafeAt _ topology (
                  if-SafeAt _ (routing _) (
                    if-SafeAt _ (path _) (
                      if-SafeAt _ messages
                        (says (codes "Unrecognized command: " ++ (input ++ codes "\n")))))))))))
    where
      says : (text : Text) → SafeAt s (print text)
      says = print-SafeAt g

      leaves : SafeAt s (leave_command sys)
      leaves = Keeps-SafeAt g (leave_command-Keeps safety sys)

      chords : SafeAt s (chord_command sys)
      chords = chord-SafeAt s g

      removes : SafeAt s (remove_chord_command sys (conn_printf sys fuel))
      removes = remove-SafeAt s g known

      exits : SafeAt s (modify (λ s. record s { should_exit = true }))
      exits = Keeps-SafeAt g (
          modify-Keeps safety _ (λ s. refl) (λ s. refl) (λ s v. v) (λ s w. w)
            (λ s. failures_le s.history))

      topology : SafeAt s show_topology
      topology = Keeps-SafeAt g (show_topology-Keeps safety)

      routing : (short : Bool) → SafeAt s (show_routing short input)
      routing short = Keeps-SafeAt g (show_routing-Keeps safety short input)

      path : (short : Bool) → SafeAt s (show_path short input)
      path short = Keeps-SafeAt g (show_path-Keeps safety short input)

      messages : SafeAt s (message_command sys (conn_printf sys fuel) input)
      messages =
          Keeps-SafeAt g (message_command-Keeps safety (conn_printf sys fuel) printf sys input)

  lowered-SafeAt :
      (input : Text) (r : Result Text) (s : State)
      → ((lower : Text)
          → r ≡ ok lower
          → SafeAt s (run_command sys (conn_printf sys fuel) input lower))
      → SafeAt s (lift r >>= run_command sys (conn_printf sys fuel) input)
  lowered-SafeAt input (stop e) s p = record { run = tt }
  lowered-SafeAt input (ok lower) s p = record { run = (p lower refl).run }

  -- For a line that is not read as a command to join, in a state with well-formed tables whose
  -- outbound chord, if there is one, leads to an identifier other than -1: a call of
  -- `handle_user_input` that returns leaves well-formed tables, and this node's own identifier and
  -- address as they were. That includes the answer to a list of nodes, by which a ring is joined.
  pub handle_user_input-After :
      (input : Text) (s : State)
      → Good s
      → IsChordKnown s
      → ¬ IsJoining s input
      → After safety s (handle_user_input sys (conn_printf sys fuel) input s)
  unfolding handle_user_input select_node
  handle_user_input-After input s g known other = (go s.input_state refl).run
    where
      go :
          (state : InputState)
          → s.input_state ≡ state
          → SafeAt s (handle_in sys (conn_printf sys fuel) state input)
      go join_node_selection e = record { run = selected-After join_node_selection _ s g }
      go chord_node_selection e = record { run = selected-After chord_node_selection _ s g }
      go command e = lowered-SafeAt input (input_lowercase input) s (λ lower l.
          run_command-SafeAt input lower s g known (not_joining lower l (is_joining lower) refl))
        where
          not_joining :
              (lower : Text)
              → input_lowercase input ≡ ok lower
              → (b : Bool) → is_joining lower ≡ b
              → b ≡ false
          not_joining lower l false f = refl
          not_joining lower l true f =
              absurd
                (other (e, subst (λ x. is_joining x ≡ true) (sym (lowercase_of input lower l)) f))
