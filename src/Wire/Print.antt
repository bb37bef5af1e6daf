-- ===== src/Wire/Print.antt =====
-- Writing messages: the formats of `sprintf` that the program uses, `path_to_string` and
-- `get_route_message` of routing.c.
use projeto_rci.Base.{
  ℕ, zero, suc, ◌+◌, ◌/◌, ◌%◌, Option, none, some, [], ◌∷◌, ◌++◌, pos, negsuc, pos_part, ◌==ℤ◌, ltb,
  length, if◌then◌else◌,
}
use projeto_rci.Node.{NodeId, Text, Result, ok, stop, path_assertion, out_of_bounds}
use projeto_rci.Routing.Path.{RoutePath, is_invalid}

-- The decimal digits of a number below 1000.
unfoldable pub decimal : ℕ → Text
decimal n =
    if ltb n 10
    then (b'0' + n) ∷ []
    else if ltb n 100
    then (b'0' + n / 10) ∷ (b'0' + n % 10) ∷ []
    else (b'0' + n / 100) ∷ (b'0' + n / 10 % 10) ∷ (b'0' + n % 10) ∷ []

-- "%02hhd", `NODE_ID_OUT`
unfoldable pub print_id : NodeId → Text
unfolding decimal
print_id (pos n) = if ltb n 10 then b'0' ∷ decimal n else decimal n
print_id (negsuc n) = b'-' ∷ decimal (suc n)

-- "%2hhd", in the SUCC message that passes an ENTRY message on
unfoldable pub print_id_padded : NodeId → Text
unfolding decimal
print_id_padded (pos n) = if ltb n 10 then b' ' ∷ decimal n else decimal n
print_id_padded (negsuc n) = b'-' ∷ decimal (suc n)

-- The loop over the nodes of the path.
unfoldable pub print_nodes : ℕ → ℕ → (ℕ → NodeId) → Text
print_nodes zero i nodes = []
print_nodes (suc n) i nodes = print_id (nodes i) ++ (b'-' ∷ print_nodes n (suc i) nodes)

unfoldable pub path_to_string : NodeId → NodeId → RoutePath → Result Text
path_to_string self recipient_id path =
    if is_invalid path
    then ok []
    else if path.hop_count ==ℤ negsuc 0
    then stop path_assertion
    else ok (
        print_id self
        ++ (b'-' ∷ (print_nodes (pos_part path.hop_count) 0 path.nodes ++ print_id recipient_id)))

abbrev pub route_word : Text
route_word = b'R' ∷ b'O' ∷ b'U' ∷ b'T' ∷ b'E' ∷ b' ' ∷ []

-- "ROUTE <neighbor> <recipient>", and what follows it.
abbrev pub route_header : NodeId → NodeId → Text → Text
route_header self recipient_id rest =
    route_word ++ (print_id self ++ (b' ' ∷ (print_id recipient_id ++ rest)))

abbrev pub with_path : NodeId → NodeId → Result Text → Result Text
with_path self recipient_id (ok path_str) =
    ok (route_header self recipient_id (b' ' ∷ (path_str ++ (b'\n' ∷ []))))
with_path self recipient_id (stop e) = stop e

abbrev pub route_message : NodeId → NodeId → Option RoutePath → Result Text
route_message self recipient_id none = ok (route_header self recipient_id (b'\n' ∷ []))
route_message self recipient_id (some path) =
    if is_invalid path
    then ok (route_header self recipient_id (b'\n' ∷ []))
    else with_path self recipient_id (path_to_string self recipient_id path)

-- `route_msg`, the array that a ROUTE message is printed into, has 14 + MAX_PATH_STR_LENGTH bytes;
-- a null character follows the message.
abbrev pub route_msg_size : ℕ
route_msg_size = 14 + 47

abbrev pub in_route_msg : Result Text → Result Text
in_route_msg (ok msg) = if ltb (length msg) route_msg_size then ok msg else stop out_of_bounds
in_route_msg (stop e) = stop e

unfoldable pub get_route_message : NodeId → NodeId → Option RoutePath → Result Text
get_route_message self recipient_id path = in_route_msg (route_message self recipient_id path)
