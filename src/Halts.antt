-- ===== src/Halts.antt =====
-- The functions that the monad lifts do not run out of fuel: they have none.
use projeto_rci.Base.{
  ℕ, suc, Bool, true, false, ◌&&◌, Option, none, some, [], ◌∷◌, ◌++◌, length, pos, negsuc, ltb,
  ◌==◌, ◌==ℤ◌, if◌then◌else◌,
}
use projeto_rci.Node.{NodeId, NodeIndex, Text, no_node_id, max_nodes, Result, ok, stop, ◌>>=◌}
use projeto_rci.Routing.Path.{RoutePath, is_invalid}
use projeto_rci.Routing.Tables.{
  Tables, find_recipient, find_neighbor, new_recipient, new_neighbor, recipient_or_new,
  neighbor_or_new, get_recipient_index, get_neighbor_index,
}
use projeto_rci.Routing.Update.{write_at, incoming, update_routing_given_new_path}
use projeto_rci.Wire.Print.{
  route_message, route_msg_size, in_route_msg, with_path, path_to_string, get_route_message,
}
use projeto_rci.Wire.Scan.{is_digit}
use projeto_rci.Wire.PathString.{parse_path, store, atoi}
use projeto_rci.Frame.{HaltsOr}

bind-HaltsOr :
    {A B : Type 0} (r : Result A) (f : A → Result B)
    → HaltsOr r
    → ((a : A) → HaltsOr (f a))
    → HaltsOr (r >>= f)
bind-HaltsOr (ok a) f h k = k a
bind-HaltsOr (stop e) f h k = h

new_recipient-HaltsOr : (t : Tables) (id : NodeId) (i : NodeIndex) → HaltsOr (new_recipient t id i)
new_recipient-HaltsOr t id none = tt
new_recipient-HaltsOr t id (some k) = tt

recipient-HaltsOr :
    (t : Tables) (id : NodeId) (b : Bool) (i : NodeIndex) → HaltsOr (recipient_or_new t id b i)
recipient-HaltsOr t id b (some k) = tt
recipient-HaltsOr t id true none = new_recipient-HaltsOr t id (find_recipient t no_node_id)
recipient-HaltsOr t id false none = tt

pub get_recipient_index-HaltsOr :
    (t : Tables) (id : NodeId) (b : Bool) → HaltsOr (get_recipient_index t id b)
unfolding get_recipient_index
get_recipient_index-HaltsOr t id b = recipient-HaltsOr t id b (find_recipient t id)

new_neighbor-HaltsOr : (t : Tables) (id : NodeId) (i : NodeIndex) → HaltsOr (new_neighbor t id i)
new_neighbor-HaltsOr t id none = tt
new_neighbor-HaltsOr t id (some k) = tt

neighbor-HaltsOr :
    (t : Tables) (id : NodeId) (b : Bool) (i : NodeIndex) → HaltsOr (neighbor_or_new t id b i)
neighbor-HaltsOr t id b (some k) = tt
neighbor-HaltsOr t id true none = new_neighbor-HaltsOr t id (find_neighbor t no_node_id)
neighbor-HaltsOr t id false none = tt

pub get_neighbor_index-HaltsOr :
    (t : Tables) (id : NodeId) (b : Bool) → HaltsOr (get_neighbor_index t id b)
unfolding get_neighbor_index
get_neighbor_index-HaltsOr t id b = neighbor-HaltsOr t id b (find_neighbor t id)

if-HaltsOr :
    {A : Type 0} (b : Bool) (r q : Result A) → HaltsOr r → HaltsOr q → HaltsOr (if b then r else q)
if-HaltsOr true r q h k = h
if-HaltsOr false r q h k = k

write_at-HaltsOr : (t : Tables) (n r : NodeIndex) (p : RoutePath) → HaltsOr (write_at t n r p)
write_at-HaltsOr t none r p = tt
write_at-HaltsOr t (some n) none p = tt
write_at-HaltsOr t (some n) (some r) p = tt

pub update_routing-HaltsOr :
    (self nid rid : NodeId) (path : Option RoutePath) (t : Tables)
    → HaltsOr (update_routing_given_new_path self nid rid path t)
unfolding update_routing_given_new_path
update_routing-HaltsOr self nid rid path t = if-HaltsOr (rid ==ℤ self) _ _ tt (
    if-HaltsOr (nid ==ℤ self) _ _ tt (
      bind-HaltsOr (get_neighbor_index t nid true) _ (get_neighbor_index-HaltsOr t nid true) (λ x.
        bind-HaltsOr (get_recipient_index x.1 rid true) _ (get_recipient_index-HaltsOr x.1 rid true)
          (λ y. write_at-HaltsOr y.1 x.0 y.0 (incoming self path)))))

store-HaltsOr : (nodes : ℕ → NodeId) (i : ℕ) (id : NodeId) → HaltsOr (store nodes i id)
store-HaltsOr nodes i id = if-HaltsOr (ltb i max_nodes) _ _ tt tt

split-HaltsOr :
    (d e : Bool) (r q : Result (Option RoutePath))
    → HaltsOr r
    → HaltsOr q
    → HaltsOr (elim d [ true ↦ r | false ↦ elim e [ true ↦ q | false ↦ ok none ] ])
split-HaltsOr true e r q h k = h
split-HaltsOr false true r q h k = k
split-HaltsOr false false r q h k = tt

pub parse_path-HaltsOr :
    (s segment : Text) (i : ℕ) (nodes : ℕ → NodeId) → HaltsOr (parse_path s segment i nodes)
unfolding parse_path
parse_path-HaltsOr [] segment i nodes =
    bind-HaltsOr (store nodes i (pos (atoi 0 segment))) _
      (store-HaltsOr nodes i (pos (atoi 0 segment))) (λ x. tt)
parse_path-HaltsOr (c ∷ s) segment i nodes =
    split-HaltsOr (c == b'-') (is_digit c && ltb (length segment) 2)
      (store nodes i (pos (atoi 0 segment)) >>= λ x. parse_path s [] (suc i) x)
      (parse_path s (segment ++ (c ∷ [])) i nodes)
      (bind-HaltsOr (store nodes i (pos (atoi 0 segment))) _
        (store-HaltsOr nodes i (pos (atoi 0 segment))) (parse_path-HaltsOr s [] (suc i)))
      (parse_path-HaltsOr s (segment ++ (c ∷ [])) i nodes)

with_path-HaltsOr : (self id : NodeId) (r : Result Text) → HaltsOr r → HaltsOr (with_path self id r)
with_path-HaltsOr self id (ok s) h = tt
with_path-HaltsOr self id (stop e) h = h

path_to_string-HaltsOr : (self id : NodeId) (p : RoutePath) → HaltsOr (path_to_string self id p)
unfolding path_to_string
path_to_string-HaltsOr self id p =
    if-HaltsOr (is_invalid p) _ _ tt (if-HaltsOr (p.hop_count ==ℤ negsuc 0) _ _ tt tt)

route_message-HaltsOr :
    (self id : NodeId) (p : Option RoutePath) → HaltsOr (route_message self id p)
route_message-HaltsOr self id none = tt
route_message-HaltsOr self id (some p) =
    if-HaltsOr (is_invalid p) _ _ tt
      (with_path-HaltsOr self id (path_to_string self id p) (path_to_string-HaltsOr self id p))

in_route_msg-HaltsOr : (r : Result Text) → HaltsOr r → HaltsOr (in_route_msg r)
in_route_msg-HaltsOr (ok msg) h = if-HaltsOr (ltb (length msg) route_msg_size) _ _ tt tt
in_route_msg-HaltsOr (stop e) h = h

pub get_route_message-HaltsOr :
    (self id : NodeId) (p : Option RoutePath) → HaltsOr (get_route_message self id p)
unfolding get_route_message
get_route_message-HaltsOr self id p =
    in_route_msg-HaltsOr (route_message self id p) (route_message-HaltsOr self id p)

pub ruleset halting = (
  get_recipient_index-HaltsOr, get_neighbor_index-HaltsOr, update_routing-HaltsOr,
  parse_path-HaltsOr, get_route_message-HaltsOr,
)
