-- ===== src/NodeServer/Safety.antt =====
-- Asking for the nodes to which a chord can lead, and the well-formedness of the tables.
use projeto_rci.Base.{
  ◌≡◌, refl, take, ltb, length, inl, inr, Bool-cases, Bool, true, false, List, [], ◌∷◌, ◌++◌,
  if◌then◌else◌,
}
use projeto_rci.Node.{Text, codes, Node, node_server_error, Result, ok, stop}
use projeto_rci.Machine.{
  State, M, System, and_then, skip, fail, with_history, sent, requested, NodeListAction,
  chord_action, NodeListAnswer, select_failed, timed_out, receive_failed, answered,
}
use projeto_rci.Frame.{After, Keeps, keeps, pure-Keeps}
use projeto_rci.Ring.Shrinking.{Good}
use projeto_rci.Ring.Safety.{safety}
use projeto_rci.Ring.Kept.{leave_ring-Keeps}
use projeto_rci.Ring.Join.{send_ns_message}
use projeto_rci.NodeServer.{
  list_received, list_parsed, node_list_in, node_list, handle_answer, ask_nodes, request_node_list,
}
use projeto_rci.Ring.SafeAt.{After-from, SafeAt, if-SafeAt, Keeps-SafeAt}

module _ (sys : System) where
  received-Keeps : Keeps safety (list_received sys chord_action)
  received-Keeps = search keeps depth 20

  received-SafeAt :
      (s : State) (action : NodeListAction)
      → Good s
      → action ≡ chord_action
      → SafeAt s (list_received sys action)
  received-SafeAt s action g c = rw c (Keeps-SafeAt g received-Keeps)

  parsed-SafeAt :
      (s : State) (action : NodeListAction) (r : Result (List Node))
      → Good s
      → action ≡ chord_action
      → SafeAt s (list_parsed sys action r)
  parsed-SafeAt s action (stop e) g c = record { run = tt }
  parsed-SafeAt s action (ok nodes) g c = record {
    run =
        let t : State = record s { node_arr = nodes } in
        After-from s t (list_received sys action t) refl (received-SafeAt t action g c).run;
  }

  node_list-SafeAt :
      (message behind : Text) (s : State)
      → Good s
      → s.node_list_action ≡ chord_action
      → SafeAt s (node_list sys message behind)
  node_list-SafeAt message behind s g c = record { run = inside.run }
    where
      parsed : (r : Result (List Node)) → SafeAt s (list_parsed sys s.node_list_action r)
      parsed r = parsed-SafeAt s s.node_list_action r g c

      skipped : SafeAt s skip
      skipped = Keeps-SafeAt g (pure-Keeps safety tt)

      inside : SafeAt s (node_list_in sys message behind s)
      inside = if-SafeAt _ (parsed _) skipped

  answer-SafeAt :
      (answer : NodeListAnswer) (s : State)
      → Good s
      → s.node_list_action ≡ chord_action
      → SafeAt s (handle_answer sys answer)
  answer-SafeAt select_failed s g c = record { run = tt }
  answer-SafeAt timed_out s g c = Keeps-SafeAt g (leave_ring-Keeps safety sys)
  answer-SafeAt (receive_failed behind) s g c = node_list-SafeAt [] behind s g c
  answer-SafeAt (answered message behind) s g c = node_list-SafeAt message behind s g c

  asked-SafeAt : (s : State) → Good s → s.node_list_action ≡ chord_action → SafeAt s (ask_nodes sys)
  asked-SafeAt s g c =
      let answer = sys.node_list s.history in
      let t = with_history s (requested answer ∷ s.history) in
      record {
        run = After-from s t (handle_answer sys answer t) refl (answer-SafeAt answer t g c).run;
      }

  sent-After :
      (s t : State) (b : Bool) (f : Unit {0} → M (Unit {0}))
      → After safety s (f tt t)
      → After safety s (and_then ((if b then skip else fail node_server_error) t) f)
  sent-After s t true f h = h
  sent-After s t false f h = tt

  pub request-SafeAt :
      (ring_id_str : Text) (s : State)
      → Good s
      → s.node_list_action ≡ chord_action
      → SafeAt s (request_node_list sys ring_id_str)
  unfolding request_node_list send_ns_message
  request-SafeAt ring_id_str s g c =
      let text = codes "NODES " ++ ring_id_str in
      let message = take 10 (text ++ (0 ∷ sys.unwritten 0 ∷ sys.unwritten 1 ∷ [])) in
      let done = sys.sends s.history message in
      let t = with_history s (sent message done ∷ s.history) in
      let asked =
        sent-After s t done (λ _. ask_nodes sys)
          (After-from s t (ask_nodes sys t) refl (asked-SafeAt t g c).run) in
      record {
        run = elim (Bool-cases (ltb (length text) 10)) [ inl e ↦ rw e asked | inr e ↦ rw e tt ];
      }
