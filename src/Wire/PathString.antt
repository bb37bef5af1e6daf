-- ===== src/Wire/PathString.antt =====
-- The path string of a ROUTE message, as `handle_message_from_any_node` of ring.c reads it.
use projeto_rci.Base.{
  ℕ, suc, ◌+◌, ◌-◌, ◌*◌, true, false, ◌&&◌, Option, none, some, [], ◌∷◌, ◌++◌, pos, ltb, ◌==◌,
  if◌then◌else◌, length, update,
}
use projeto_rci.Node.{NodeId, Text, max_nodes, Result, ok, stop, out_of_bounds, ◌>>=◌}
use projeto_rci.Routing.Path.{RoutePath}
use projeto_rci.Wire.Scan.{is_digit}

-- `atoi` of a text of digits
abbrev pub atoi : ℕ → Text → ℕ
atoi acc [] = acc
atoi acc (c ∷ s) = atoi (acc * 10 + (c - 48)) s

-- `path.nodes[i] = id`: nothing but the size of the array bounds `i`.
abbrev pub store : (ℕ → NodeId) → ℕ → NodeId → Result (ℕ → NodeId)
store nodes i id = if ltb i max_nodes then ok (update nodes i id) else stop out_of_bounds

-- The loop over the characters, with those of the identifier begun, and the count of identifiers
-- stored. `ok none` is a string that is refused with a warning.
unfoldable pub parse_path : Text → Text → ℕ → (ℕ → NodeId) → Result (Option RoutePath)
parse_path [] segment i nodes = store nodes i (pos (atoi 0 segment)) >>= λ nodes'.
    ok (some (record { hop_count = pos i; nodes = nodes' }))
parse_path (c ∷ s) segment i nodes = elim (c == b'-') [
  | true ↦ store nodes i (pos (atoi 0 segment)) >>= λ nodes'. parse_path s [] (suc i) nodes'
  | false ↦ elim (is_digit c && ltb (length segment) 2) [
    | true ↦ parse_path s (segment ++ (c ∷ [])) i nodes
    | false ↦ ok none
  ]
]
