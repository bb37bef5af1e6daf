-- ===== src/NodeServer/Halting.antt =====
-- Reading a node list needs no fuel.
use projeto_rci.Base.{
  inl, inr, Bool, true, false, not, Option, none, some, List, [], ◌∷◌, ◌++◌, ◌==◌, length, ltb,
  get_or, drop, Bool-cases,
}
use projeto_rci.Node.{NodeId, Text, Node, max_nodes, Result, ok, stop}
use projeto_rci.ReadLines.{newline, c_string}
use projeto_rci.Wire.Scan.{scan_entry, read}
use projeto_rci.NodeServer.{
  add_entry, next_entry, node_entries, ends_line, if_ends, parse_node_list,
}
use projeto_rci.Frame.{HaltsOr}

halted :
    (r : Result Bool) → HaltsOr r → (k : Result (List Node)) → HaltsOr k → HaltsOr (if_ends r k)
halted (stop e) h k q = h
halted (ok false) h k q = tt
halted (ok true) h k q = q

add_entry-HaltsOr :
    (keep : NodeId → Bool) (nodes : List Node) (r : Option Node) → HaltsOr (add_entry keep nodes r)
unfolding add_entry
add_entry-HaltsOr keep nodes none = tt
add_entry-HaltsOr keep nodes (some node) = elim (Bool-cases (ltb (length nodes) max_nodes)) [
  | inl e ↦ rw e tt
  | inr e ↦ rw e tt
]

next_entry-HaltsOr :
    (r : Result (List Node)) (f : List Node → Result (List Node))
    → HaltsOr r
    → ((nodes : List Node) → HaltsOr (f nodes))
    → HaltsOr (next_entry r f)
next_entry-HaltsOr (ok nodes) f h p = p nodes
next_entry-HaltsOr (stop e) f h p = h

node_entries-HaltsOr :
    (keep : NodeId → Bool) (behind : Text) (line_starts : Bool) (nodes : List Node) (s : Text)
    → HaltsOr (node_entries keep behind line_starts nodes s)
unfolding node_entries
node_entries-HaltsOr keep behind line_starts nodes [] = tt
node_entries-HaltsOr keep behind false nodes (c ∷ s) =
    node_entries-HaltsOr keep behind (c == newline) nodes s
node_entries-HaltsOr keep behind true nodes (c ∷ s) =
    next_entry-HaltsOr _ _
      (add_entry-HaltsOr keep nodes (read scan_entry (c_string ((c ∷ s) ++ behind))))
      (λ nodes'. node_entries-HaltsOr keep behind (c == newline) nodes' s)

ends_line-HaltsOr : (s : Text) → HaltsOr (ends_line s)
ends_line-HaltsOr [] = tt
ends_line-HaltsOr (c ∷ s) = tt

pub parse_node_list-HaltsOr :
    (keep : NodeId → Bool) (message behind : Text) → HaltsOr (parse_node_list keep message behind)
unfolding parse_node_list
parse_node_list-HaltsOr keep message behind =
    elim (Bool-cases (not (get_or (message ++ behind) 13 0 == newline))) [
      | inl e ↦ rw e tt
      | inr e ↦ rw e (
          halted (ends_line message) (ends_line-HaltsOr message) _
            (node_entries-HaltsOr keep behind true [] (drop 14 message)))
    ]
