-- ===== src/NodeServer/Laws.antt =====
-- What the node keeps of a node list, and the identifier that it chooses.
use projeto_rci.Base.{
  ◌≤◌, ◌<◌, ◌≡◌, refl, inl, inr, Bool, true, false, not, Option, none, some, List, [], ◌∷◌, ◌++◌,
  ◌==◌, if◌then◌else◌, length, length-append, ltb, get_or, drop, arith, Bool-cases,
}
use projeto_rci.Node.{NodeId, Text, Node, max_nodes, malformed_node_list, Result, ok, stop}
use projeto_rci.ReadLines.{newline, c_string}
use projeto_rci.Wire.Scan.{scan_entry, read}
use projeto_rci.NodeServer.{
  add_entry, next_entry, node_entries, ends_line, if_ends, parse_node_list,
}

-- Every node of the list passes the test.
abbrev pub AllKept : (NodeId → Bool) → List Node → Type 0
AllKept keep [] = Unit
AllKept keep (node ∷ nodes) = (keep node.id ≡ true) × AllKept keep nodes

pub record IsList (keep : NodeId → Bool) (nodes : List Node) : Type 0 where
  pub fits : length nodes ≤ max_nodes
  pub kept : AllKept keep nodes

abbrev pub Lists : (NodeId → Bool) → Result (List Node) → Type 0
Lists keep (ok nodes) = IsList keep nodes
Lists keep (stop e) = Unit

AllKept-append :
    (keep : NodeId → Bool) (nodes : List Node) (node : Node)
    → AllKept keep nodes
    → keep node.id ≡ true
    → AllKept keep (nodes ++ (node ∷ []))
AllKept-append keep [] node a k = (k, tt)
AllKept-append keep (n ∷ ns) node (h, a) k = (h, AllKept-append keep ns node a k)

add_entry-Lists :
    (keep : NodeId → Bool) (nodes : List Node) (r : Option Node)
    → IsList keep nodes
    → Lists keep (add_entry keep nodes r)
unfolding add_entry
add_entry-Lists keep nodes none l = tt
add_entry-Lists keep nodes (some node) l = elim (Bool-cases (ltb (length nodes) max_nodes)) [
  | inl e ↦ rw e (kept (keep node.id) refl (ltb→lt e))
  | inr e ↦ rw e tt
]
  where
    ltb→lt : ltb (length nodes) max_nodes ≡ true → length nodes < max_nodes
    ltb→lt e = ground arith

    kept :
        (b : Bool)
        → keep node.id ≡ b
        → length nodes < max_nodes
        → IsList keep (if b then nodes ++ (node ∷ []) else nodes)
    kept false e lt = l
    kept true e lt = record {
      fits = omega (arith, length-append nodes (node ∷ []));
      kept = AllKept-append keep nodes node l.kept e;
    }

next_entry-Lists :
    (keep : NodeId → Bool) (r : Result (List Node)) (f : List Node → Result (List Node))
    → Lists keep r
    → ((nodes : List Node) → IsList keep nodes → Lists keep (f nodes))
    → Lists keep (next_entry r f)
next_entry-Lists keep (ok nodes) f h p = p nodes h
next_entry-Lists keep (stop e) f h p = tt

node_entries-Lists :
    (keep : NodeId → Bool) (behind : Text) (line_starts : Bool) (nodes : List Node) (s : Text)
    → IsList keep nodes
    → Lists keep (node_entries keep behind line_starts nodes s)
unfolding node_entries
node_entries-Lists keep behind line_starts nodes [] l = l
node_entries-Lists keep behind false nodes (c ∷ s) l =
    node_entries-Lists keep behind (c == newline) nodes s l
node_entries-Lists keep behind true nodes (c ∷ s) l =
    let r = read scan_entry (c_string ((c ∷ s) ++ behind)) in
    next_entry-Lists keep (add_entry keep nodes r) _ (add_entry-Lists keep nodes r l)
      (λ nodes' h. node_entries-Lists keep behind (c == newline) nodes' s h)

-- Whatever the answer of the node server, the nodes that `parse_node_list` returns are at most 16,
-- and all of them pass the test by which they are kept.
pub parse_node_list-Lists :
    (keep : NodeId → Bool) (message behind : Text)
    → Lists keep (parse_node_list keep message behind)
unfolding parse_node_list
parse_node_list-Lists keep message behind =
    headed (not (get_or (message ++ behind) 13 0 == newline))
  where
    entries : Result (List Node)
    entries = node_entries keep behind true [] (drop 14 message)

    entries-Lists : Lists keep entries
    entries-Lists =
        node_entries-Lists keep behind true [] (drop 14 message)
          (record { fits = omega arith; kept = tt })

    ended : (r : Result Bool) → Lists keep (if_ends r entries)
    ended (stop e) = tt
    ended (ok false) = tt
    ended (ok true) = entries-Lists

    headed :
        (b : Bool)
        → Lists keep (if b then stop malformed_node_list else if_ends (ends_line message) entries)
    headed true = tt
    headed false = ended (ends_line message)
