-- ===== src/NodeServer/Joining.antt =====
-- What follows a node list that was asked for to join a ring.
use projeto_rci.Base.{
  ℕ, ltb, ◌≤◌, ◌≡◌, refl, sym, subst, inl, inr, Bool, true, false, List, ◌∷◌, ◌++◌, length,
  if◌then◌else◌, Bool-cases, not,
}
use projeto_rci.Node.{NodeId, Text, Node, codes, max_nodes, Result, ok, stop}
use projeto_rci.Machine.{
  connected, awaiting_user_selection, join_node_selection, join_action, sent, History, System,
  State, M, with_history, when,
}
use projeto_rci.Routing.Invariant.{IsValid, init_routing-IsValid}
use projeto_rci.Ring.Join.{send_ns_message, send_array, reg_text, on_join_end, is_empty}
use projeto_rci.NodeServer.{
  parse_node_list, is_none, in_use, choose_id, start_ring, list_received, list_parsed, node_list,
  starts_with, kept_node,
}
use projeto_rci.NodeServer.Laws.{Lists, parse_node_list-Lists}
use projeto_rci.NodeServer.Choice.{choose_id-Chooses}

-- A call that changes the history only, or stops.
abbrev pub Tells : State → Result (Unit {0} × State) → Type 0
Tells s (ok (u, s')) = (h : History) × (s' ≡ with_history s h)
Tells s (stop e) = Unit {0}

send_ns_message-Tells :
    (sys : System) (message : Text) (s : State) → Tells s (send_ns_message sys message s)
unfolding send_ns_message
send_ns_message-Tells sys message s = elim (Bool-cases (sys.sends s.history message)) [
  | inl e ↦ rw e (sent message true ∷ s.history, refl)
  | inr e ↦ rw e tt
]

send_array-Tells :
    (sys : System) (size n : ℕ) (text : Text) (s : State) → Tells s (send_array sys size n text s)
send_array-Tells sys size n text s = elim (Bool-cases (ltb (length text) size)) [
  | inl e ↦ rw e (send_ns_message-Tells sys _ s)
  | inr e ↦ rw e tt
]

when-Tells : (s : State) (b : Bool) (m : M (Unit {0})) → Tells s (m s) → Tells s (when b m s)
when-Tells s true m h = h
when-Tells s false m h = (s.history, refl)

on_join_end-Tells :
    (sys : System) (s : State)
    → Tells (record s { connection_state = connected }) (on_join_end sys s)
unfolding on_join_end
on_join_end-Tells sys s =
    let t : State = record s { connection_state = connected } in
    let text = reg_text t in
    when-Tells t (not (is_empty t.ring_id_str)) (send_array sys 33 (length text) text)
      (send_array-Tells sys 33 (length text) text t)

-- The node alone in its ring
pub record IsAlone (s : State) : Type 0 where
  pub in_ring : s.connection_state ≡ connected
  pub succ : s.succ ≡ s.self
  pub second_succ : s.second_succ ≡ s.self
  pub tables : IsValid s.self.id s.tables

-- The user is asked for a successor.
pub record IsAsked (s : State) : Type 0 where
  pub awaiting : s.connection_state ≡ awaiting_user_selection
  pub input : s.input_state ≡ join_node_selection
  pub unused : in_use s.node_arr s.self.id ≡ false
  pub few : length s.node_arr ≤ max_nodes

abbrev pub Joins : Result (Unit {0} × State) → Type 0
Joins (ok (u, s)) = if is_none s.node_arr then IsAlone s else IsAsked s
Joins (stop e) = Unit

told-Joins :
    (s : State) (r : Result (Unit {0} × State))
    → is_none s.node_arr ≡ true
    → IsAlone s
    → Tells s r
    → Joins r
told-Joins s (stop e) n a h = tt
told-Joins s (ok (u, s')) n a (h, same) = rw same (
    rw n (record {
      in_ring = a.in_ring;
      succ = a.succ;
      second_succ = a.second_succ;
      tables = a.tables;
    }))

choose_id-node_arr : (s : State) → (choose_id s).node_arr ≡ s.node_arr
unfolding choose_id
choose_id-node_arr s = elim (Bool-cases (in_use s.node_arr s.self.id)) [
  | inl e ↦ rw e refl
  | inr e ↦ rw e refl
]

module _ (sys : System) where
  alone-Joins : (s : State) → is_none s.node_arr ≡ true → Joins (on_join_end sys (start_ring s))
  alone-Joins s n =
      told-Joins (record (start_ring s) { connection_state = connected })
        (on_join_end sys (start_ring s)) n
        (record {
          in_ring = refl;
          succ = refl;
          second_succ = refl;
          tables = init_routing-IsValid s.self.id s.tables;
        })
        (on_join_end-Tells sys (start_ring s))

  asked-Joins :
      (s : State)
      → is_none s.node_arr ≡ false
      → length s.node_arr ≤ max_nodes
      → Joins (
          ok (
            tt,
            record (choose_id s) {
              connection_state = awaiting_user_selection;
              input_state = join_node_selection;
            },
          ))
  asked-Joins s n few =
      let same = choose_id-node_arr s in
      rw (same, n)
        (record {
          awaiting = refl;
          input = refl;
          unused = (choose_id-Chooses s few).unused;
          few = few;
        })

  received-Joins :
      (s : State) → length s.node_arr ≤ max_nodes → Joins (list_received sys join_action s)
  received-Joins s few = elim (Bool-cases (is_none s.node_arr)) [
    | inl e ↦ rw e (alone-Joins s e)
    | inr e ↦ rw e (asked-Joins s e few)
  ]

  parsed-Joins :
      (keep : NodeId → Bool) (s : State) (r : Result (List Node))
      → Lists keep r
      → Joins (list_parsed sys join_action r s)
  parsed-Joins keep s (stop e) l = tt
  parsed-Joins keep s (ok nodes) l = received-Joins (record s { node_arr = nodes }) l.fits

  -- If a node list was asked for to join a ring, and the answer begins with NODESLIST and a space,
  -- then what follows, if it returns: if the list is empty, the node is connected and its own
  -- successor and second successor, with well-formed tables; else it awaits the user's choice of a
  -- successor, the list has at most 16 nodes, and none of them has this node's identifier.
  pub node_list-Joins :
      (message behind : Text) (s : State)
      → s.node_list_action ≡ join_action
      → starts_with (codes "NODESLIST ") (message ++ behind) ≡ true
      → Joins (node_list sys message behind s)
  node_list-Joins message behind s a e = rw e (
      subst
        (λ action.
          Joins (list_parsed sys action (parse_node_list (kept_node s action) message behind) s))
        (sym a)
        (parsed-Joins (kept_node s join_action) s
          (parse_node_list (kept_node s join_action) message behind)
          (parse_node_list-Lists (kept_node s join_action) message behind)))
