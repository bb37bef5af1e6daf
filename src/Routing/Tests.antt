-- ===== src/Routing/Tests.antt =====
-- Runs of the routing functions at concrete tables.
use projeto_rci.Base.{
  ℕ, ◌+◌, ◌≡◌, ◌≢◌, ◌⊎◌, ◌↔◌, ap, subst, refl, Bool, true, Option, some, List, [], ◌∷◌, pos,
  pos_part, ◌==ℤ◌, ◌==◌, ltb, ◌&&◌, if◌then◌else◌, first, for_each, memcpy, memcmp, get_or, arith,
}
use projeto_rci.Node.{NodeId, no_node_id, max_neighbors, Stop, Result, ok, stop}
use projeto_rci.Routing.Path.{RoutePath, copy_path, are_paths_equal}
use projeto_rci.Routing.Tables.{Tables, init_routing, get_recipient_index, get_neighbor_index}
use projeto_rci.Routing.Update.{
  crosses, incoming, closest, choice, new_row, write_path, update_routing_given_new_path,
}
use projeto_rci.Routing.View.{view, are_paths_equal_iff}
use projeto_rci.Routing.Entries.{entry}
use projeto_rci.Routing.Route.{route}
use projeto_rci.Routing.Closest.{Closest, closest-Closest, IsLeast}
use projeto_rci.Routing.Invariant.{IsValid, init_routing-IsValid}
use projeto_rci.Routing.Preserve.{Leaves, update_routing-IsValid}
use projeto_rci.Routing.Refine.{
  update_routing-total, update_routing-entry, update_routing-changed, update_routing-others,
}
use projeto_rci.Routing.Runs.{IsFull}
use projeto_rci.Routing.Ties.{choice-keeps_old}

-- The static arrays as the program starts: all bytes are zero.
abbrev pub zeroed : Tables
zeroed = record {
  recipient_ids = λ _. pos 0;
  neighbor_ids = λ _. pos 0;
  routing_table = λ _ _. record { hop_count = pos 0; nodes = λ _. pos 0 };
  forwarding_table = λ _. some 0;
}

abbrev path : ℕ → List NodeId → RoutePath
path n ids = record { hop_count = pos n; nodes = λ i. get_or ids i (pos 0) }

-- Node 10 says that it reaches 30 over 20; this node is 5.
abbrev pub message : Option RoutePath
message = some (path 2 (pos 10 ∷ pos 20 ∷ []))

abbrev pub start : Tables
start = init_routing zeroed

abbrev pub after : Result (Bool × Tables) → Tables
after (ok x) = x.1
after (stop e) = zeroed

abbrev pub first_tables : Tables
first_tables = after (update_routing_given_new_path (pos 5) (pos 10) (pos 30) message start)

first_returns :
    update_routing_given_new_path (pos 5) (pos 10) (pos 30) message start ≡ ok (true, first_tables)
unfolding init_routing get_recipient_index get_neighbor_index first for_each memcpy memcmp ◌==ℤ◌
    copy_path are_paths_equal crosses incoming closest choice write_path
    update_routing_given_new_path
first_returns = refl

pub start-IsValid : IsValid (pos 5) start
start-IsValid = init_routing-IsValid (pos 5) zeroed

pub first_tables-IsValid : IsValid (pos 5) first_tables
first_tables-IsValid =
    subst (Leaves (IsValid (pos 5))) first_returns
      (update_routing-IsValid (pos 5) (pos 10) (pos 30) message start start-IsValid)

-- Then 30 says that it is a neighbor.
abbrev pub direct : Option RoutePath
direct = some (path 0 [])

abbrev pub second_tables : Tables
second_tables = after (update_routing_given_new_path (pos 5) (pos 30) (pos 30) direct first_tables)

pub second_returns :
    update_routing_given_new_path (pos 5) (pos 30) (pos 30) direct first_tables
    ≡ ok (true, second_tables)
unfolding init_routing get_recipient_index get_neighbor_index first for_each memcpy memcmp ◌==ℤ◌
    copy_path are_paths_equal crosses incoming closest choice write_path
    update_routing_given_new_path
second_returns = refl

runs_ok : second_tables.forwarding_table 0 ≡ some 1
unfolding init_routing get_recipient_index get_neighbor_index first for_each memcpy memcmp ◌==ℤ◌
    copy_path are_paths_equal crosses incoming closest choice write_path
    update_routing_given_new_path
runs_ok = refl

pos_ne : (a b : ℕ) → a ≢ b → pos a ≢ pos b
pos_ne a b h e = h (ap pos_part e)

update_routing-entry_example : entry second_tables (pos 30) (pos 30) ≡ (
    if pos 30 ==ℤ pos 30 && pos 30 ==ℤ pos 30
    then view (incoming (pos 5) direct)
    else entry first_tables (pos 30) (pos 30))
update_routing-entry_example =
    update_routing-entry (pos 5) (pos 30) (pos 30) direct first_tables first_tables-IsValid
      (pos_ne 30 5 (omega arith)) (pos_ne 30 5 (omega arith)) (λ e. cc) (λ e. cc) second_returns
      (pos 30) (pos 30) (λ e. cc) (λ e. cc)

update_routing-changed_example :
    (true ≡ true) ↔ (route first_tables (pos 30) ≢ route second_tables (pos 30))
update_routing-changed_example =
    update_routing-changed (pos 5) (pos 30) (pos 30) direct first_tables first_tables-IsValid
      (pos_ne 30 5 (omega arith)) (pos_ne 30 5 (omega arith)) (λ e. cc) (λ e. cc) second_returns

update_routing-others_example : route second_tables (pos 20) ≡ route first_tables (pos 20)
update_routing-others_example =
    update_routing-others (pos 5) (pos 30) (pos 30) direct first_tables first_tables-IsValid
      (pos_ne 30 5 (omega arith)) (pos_ne 30 5 (omega arith)) (λ e. cc) (λ e. cc) second_returns
      (pos 20) (λ e. cc) (pos_ne 30 20 (omega arith))

update_routing-IsValid_example :
    Leaves
      (IsValid (pos 5))
      (update_routing_given_new_path (pos 5) (pos 30) (pos 30) direct first_tables)
update_routing-IsValid_example =
    update_routing-IsValid (pos 5) (pos 30) (pos 30) direct first_tables first_tables-IsValid

update_routing-total_example :
    ((x : Bool × Tables) × (update_routing_given_new_path
          (pos 5)
          (pos 30)
          (pos 30)
          direct
          first_tables
        ≡ ok x))
    ⊎ ((e : Stop) × (update_routing_given_new_path (pos 5) (pos 30) (pos 30) direct first_tables
          ≡ stop e)
        × IsFull (pos 30) (pos 30) first_tables e)
update_routing-total_example =
    update_routing-total (pos 5) (pos 30) (pos 30) direct first_tables first_tables-IsValid
      (pos_ne 30 5 (omega arith)) (pos_ne 30 5 (omega arith))

closest-Closest_example :
    Closest first_tables.neighbor_ids
      (first_tables.routing_table 0)
      max_neighbors
      (closest first_tables.neighbor_ids (first_tables.routing_table 0) max_neighbors)
closest-Closest_example =
    closest-Closest first_tables.neighbor_ids (first_tables.routing_table 0) max_neighbors

are_paths_equal_iff_example :
    (are_paths_equal (path 1 (pos 7 ∷ [])) (path 1 (pos 7 ∷ pos 8 ∷ [])) ≡ true)
    ↔ (view (path 1 (pos 7 ∷ [])) ≡ view (path 1 (pos 7 ∷ pos 8 ∷ [])))
are_paths_equal_iff_example =
    are_paths_equal_iff (path 1 (pos 7 ∷ [])) (path 1 (pos 7 ∷ pos 8 ∷ []))

-- Two columns with paths of one hop; the second is in use.
abbrev tied : Tables
tied = record {
  recipient_ids = λ i. if i == 0 then pos 30 else no_node_id;
  neighbor_ids = λ j. if ltb j 2 then pos (10 + j) else no_node_id;
  routing_table = λ _ _. path 1 (pos 8 ∷ []);
  forwarding_table = λ _. some 1;
}

tied-IsLeast : IsLeast tied.neighbor_ids (new_row tied 0 0 (path 1 (pos 9 ∷ []))) max_neighbors 1
unfolding copy_path memcpy
tied-IsLeast = (omega arith, ((λ e. cc), (λ e. cc)), λ j lt u. ground arith)

choice-keeps_old_example : choice tied 0 0 (path 1 (pos 9 ∷ [])) ≡ some 1
choice-keeps_old_example = choice-keeps_old tied 0 0 (path 1 (pos 9 ∷ [])) 1 refl tied-IsLeast
