-- ===== src/Wire/Tests.antt =====
-- The theorems on path strings at concrete ones.
use projeto_rci.Base.{ℕ, ◌+◌, ◌≡◌, refl, [], ◌∷◌, pos, some, arith, ◌*◌, slice}
use projeto_rci.Node.{NodeId, Text, Node, codes, ok, stop, out_of_bounds}
use projeto_rci.Routing.Path.{RoutePath}
use projeto_rci.Wire.PathString.{parse_path}
use projeto_rci.Base.{length, ◌++◌, ◌<◌}
use projeto_rci.Wire.Scan.{read, scan_route_path, scan_node}
use projeto_rci.Wire.NodeMessage.{IsWord, node_message-scan}
use projeto_rci.Ring.Join.{node_message}
use projeto_rci.Wire.RouteMessage.{get_route_message-scan, get_route_message-overflow}
use projeto_rci.Wire.Print.{get_route_message, path_to_string, print_id, print_id_padded}
use projeto_rci.Wire.RoundTrip.{parse_path-path_to_string}
use projeto_rci.Wire.Bounds.{parse_path-overflow}

abbrev zeros : ℕ → NodeId
zeros _ = pos 0

abbrev two_hops : RoutePath
two_hops = record { hop_count = pos 2; nodes = λ k. pos (10 * k + 10) }

-- "05-10-20-30-..." with 16 dashes
abbrev long : Text
long = codes "05-10-20-30-40-50-60-70-80-90-11-12-13-14-15-16-17"

parse_path-path_to_string_example :
    (s : Text) × (q : RoutePath) × (path_to_string (pos 5) (pos 30) two_hops ≡ ok s)
    × (parse_path s [] 0 zeros ≡ ok (some q))
    × (q.hop_count ≡ pos 3)
    × (slice 3 0 q.nodes ≡ pos 5 ∷ slice 2 0 two_hops.nodes)
parse_path-path_to_string_example =
    parse_path-path_to_string (pos 5) (pos 30) two_hops 2 zeros (5, refl, omega arith)
      (30, refl, omega arith) refl (λ k lt. (10 * k + 10, refl, omega arith)) (omega arith)

parse_path-overflow_example : parse_path long [] 0 zeros ≡ stop out_of_bounds
parse_path-overflow_example = parse_path-overflow long [] 0 zeros refl (omega arith)

get_route_message-scan_example :
    (line : Text) × (path_str : Text) × (q : RoutePath) × (get_route_message
        (pos 5)
        (pos 30)
        (some two_hops)
      ≡ ok (line ++ (b'\n' ∷ [])))
    × (length (line ++ (b'\n' ∷ [])) < 61)
    × (read scan_route_path line ≡ some (pos 5, pos 30, path_str))
    × (parse_path path_str [] 0 zeros ≡ ok (some q))
    × (q.hop_count ≡ pos 3)
    × (slice 3 0 q.nodes ≡ pos 5 ∷ slice 2 0 two_hops.nodes)
get_route_message-scan_example =
    get_route_message-scan (pos 5) (pos 30) two_hops 2 zeros (5, refl, omega arith)
      (30, refl, omega arith) refl (λ k lt. (10 * k + 10, refl, omega arith)) (omega arith)

-- One more hop than fits
abbrev many_hops : RoutePath
many_hops = record { hop_count = pos 15; nodes = λ k. pos (k + 10) }

get_route_message-overflow_example :
    get_route_message (pos 5) (pos 30) (some many_hops) ≡ stop out_of_bounds
get_route_message-overflow_example =
    get_route_message-overflow (pos 5) (pos 30) many_hops 15 (5, refl, omega arith)
      (30, refl, omega arith) refl (λ k lt. (k + 10, refl, omega arith)) (omega arith)

abbrev seven : Node
seven = record { id = pos 7; ip_addr = codes "127.0.0.1"; tcp_port = codes "58001" }

ip_addr-IsWord : IsWord 15 seven.ip_addr
ip_addr-IsWord = record {
  no_space = (refl, (refl, (refl, (refl, (refl, (refl, (refl, (refl, (refl, tt)))))))));
  some_character = omega arith;
  fits = omega arith;
}

tcp_port-IsWord : IsWord 5 seven.tcp_port
tcp_port-IsWord = record {
  no_space = (refl, (refl, (refl, (refl, (refl, tt)))));
  some_character = omega arith;
  fits = omega arith;
}

node_message-scan_example :
    (line padded_line : Text) × (node_message (codes "SUCC" ++ (32 ∷ [])) (print_id (pos 7)) seven
      ≡ line ++ (b'\n' ∷ []))
    × (read (scan_node (codes "SUCC")) line ≡ some seven)
    × (node_message (codes "SUCC" ++ (32 ∷ [])) (print_id_padded (pos 7)) seven
        ≡ padded_line ++ (b'\n' ∷ []))
    × (read (scan_node (codes "SUCC")) padded_line ≡ some seven)
node_message-scan_example =
    node_message-scan (codes "SUCC") seven (7, refl, omega arith) ip_addr-IsWord tcp_port-IsWord
