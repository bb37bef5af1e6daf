-- ===== src/Wire/RoundTrip.antt =====
-- The path string of a ROUTE message, printed by `path_to_string` and parsed by ring.c.
use projeto_rci.Base.{
  ℕ, zero, suc, ◌+◌, ◌/◌, ◌%◌, ◌≤◌, ◌<◌, ◌≡◌, refl, ap, ◌∙◌, Option, some, [], ◌∷◌, ◌++◌, pos,
  ◌==ℤ◌, length, update, arith, lt→ltb, ==_ne, ==_refl, slice,
}
use mathlib.Core.List.{append_assoc}
use projeto_rci.Node.{NodeId, Text, max_nodes, Result, ok}
use projeto_rci.Routing.Path.{RoutePath}
use projeto_rci.Wire.Print.{print_id, print_nodes, path_to_string}
use projeto_rci.Wire.PathString.{parse_path, atoi}

-- An identifier that is printed with two digits, as all node identifiers up to 99 are.
abbrev pub TwoDigits : NodeId → Type 0
TwoDigits id = (n : ℕ) × (id ≡ pos n) × (n < 100)

pub print_id_two : (n : ℕ) → n < 100 → print_id (pos n) ≡ (48 + n / 10) ∷ (48 + n % 10) ∷ []
unfolding print_id
print_id_two n h = ground arith

parse_digit :
    (d : ℕ) (s segment : Text) (i : ℕ) (nodes : ℕ → NodeId)
    → d < 10
    → length segment < 2
    → parse_path ((48 + d) ∷ s) segment i nodes ≡ parse_path s (segment ++ ((48 + d) ∷ [])) i nodes
unfolding parse_path
parse_digit d s segment i nodes h k = ground arith

parse_dash :
    (s segment : Text) (i : ℕ) (nodes : ℕ → NodeId)
    → i < max_nodes
    → parse_path (b'-' ∷ s) segment i nodes
      ≡ parse_path s [] (suc i) (update nodes i (pos (atoi 0 segment)))
unfolding parse_path
parse_dash s segment i nodes h = rw (lt→ltb i max_nodes h) refl

atoi_two : (n : ℕ) → n < 100 → atoi 0 ((48 + n / 10) ∷ (48 + n % 10) ∷ []) ≡ n
atoi_two n h = omega arith

parse_two :
    (n : ℕ) (s : Text) (i : ℕ) (nodes : ℕ → NodeId)
    → n < 100
    → parse_path ((48 + n / 10) ∷ (48 + n % 10) ∷ s) [] i nodes
      ≡ parse_path s ((48 + n / 10) ∷ (48 + n % 10) ∷ []) i nodes
parse_two n s i nodes h =
    parse_digit (n / 10) ((48 + n % 10) ∷ s) [] i nodes (omega arith) (omega arith)
    ∙ parse_digit (n % 10) s ((48 + n / 10) ∷ []) i nodes (omega arith) (omega arith)

-- An identifier in the middle of the string.
parse_id :
    (id : NodeId) (s : Text) (i : ℕ) (nodes : ℕ → NodeId)
    → TwoDigits id
    → i < max_nodes
    → parse_path (print_id id ++ (b'-' ∷ s)) [] i nodes
      ≡ parse_path s [] (suc i) (update nodes i id)
parse_id id s i nodes (n, e, h) lt =
    rw (e, print_id_two n h)
      (parse_two n (b'-' ∷ s) i nodes h
        ∙ parse_dash s ((48 + n / 10) ∷ (48 + n % 10) ∷ []) i nodes lt
        ∙ ap (λ m. parse_path s [] (suc i) (update nodes i (pos m))) (atoi_two n h))

parse_end :
    (segment : Text) (i : ℕ) (nodes : ℕ → NodeId)
    → i < max_nodes
    → parse_path [] segment i nodes
      ≡ ok (some (record { hop_count = pos i; nodes = update nodes i (pos (atoi 0 segment)) }))
unfolding parse_path
parse_end segment i nodes h = rw (lt→ltb i max_nodes h) refl

-- The last one.
parse_last :
    (id : NodeId) (i : ℕ) (nodes : ℕ → NodeId)
    → TwoDigits id
    → i < max_nodes
    → parse_path (print_id id) [] i nodes
      ≡ ok (some (record { hop_count = pos i; nodes = update nodes i id }))
parse_last id i nodes (n, e, h) lt =
    rw (e, print_id_two n h)
      (parse_two n [] i nodes h
        ∙ parse_end ((48 + n / 10) ∷ (48 + n % 10) ∷ []) i nodes lt
        ∙ ap (λ m. ok (some (record { hop_count = pos i; nodes = update nodes i (pos m) })))
            (atoi_two n h))

-- What is read when `n` nodes from `src j` on, and then `id`, are stored from index `i` on.
abbrev Reads : ℕ → ℕ → ℕ → (ℕ → NodeId) → NodeId → (ℕ → NodeId) → Result (Option RoutePath) → Type 0
Reads n i j src id nodes r =
    (nodes' : ℕ → NodeId) × (r ≡ ok (some (record { hop_count = pos (i + n); nodes = nodes' })))
    × (slice n i nodes' ≡ slice n j src)
    × ((k : ℕ) → k < i → nodes' k ≡ nodes k)

parse_nodes :
    (n i j : ℕ) (src : ℕ → NodeId) (id : NodeId) (nodes : ℕ → NodeId)
    → ((k : ℕ) → j ≤ k → k < j + n → TwoDigits (src k))
    → TwoDigits id
    → i + n < max_nodes
    → Reads n i j src id nodes (parse_path (print_nodes n j src ++ print_id id) [] i nodes)
unfolding print_nodes
parse_nodes zero i j src id nodes h d fits = (
  update nodes i id,
  parse_last id i nodes d (omega arith)
      ∙ ap (λ m. ok (some (record { hop_count = pos m; nodes = update nodes i id }))) (omega arith),
  refl,
  λ k lt. rw (==_ne i k (omega arith)) refl,
)
parse_nodes (suc n) i j src id nodes h d fits =
    let rest = print_nodes n (suc j) src ++ print_id id in
    let (nodes', e, copied, kept) =
      parse_nodes n (suc i) (suc j) src id (update nodes i (src j))
        (λ k lo hi. h k (omega arith) (omega arith)) d (omega arith) in
    (
      nodes',
      ap (λ s. parse_path s [] i nodes)
            (append_assoc (print_id (src j)) (b'-' ∷ print_nodes n (suc j) src) (print_id id))
          ∙ parse_id (src j) rest i nodes (h j (omega arith) (omega arith)) (omega arith)
          ∙ e
          ∙ ap (λ m. ok (some (record { hop_count = pos m; nodes = nodes' }))) (omega arith),
      λ x. (kept i (omega arith) ∙ here) x ∷ copied x,
      λ k lt. kept k (omega arith) ∙ before k lt,
    )
  where
    here : update nodes i (src j) i ≡ src j
    here = rw (==_refl i) refl

    before : (k : ℕ) → k < i → update nodes i (src j) k ≡ nodes k
    before k lt = rw (==_ne i k (omega arith)) refl

-- If this node, the recipient and the nodes of a path have identifiers from 0 to 99, and the path
-- has at most 14 hops, then its path string for the recipient is printed, and read back as the
-- path with this node in front.
pub parse_path-path_to_string :
    (self recipient_id : NodeId) (p : RoutePath) (n : ℕ) (nodes : ℕ → NodeId)
    → TwoDigits self
    → TwoDigits recipient_id
    → p.hop_count ≡ pos n
    → ((k : ℕ) → k < n → TwoDigits (p.nodes k))
    → n + 2 ≤ max_nodes
    → (s : Text) × (q : RoutePath) × (path_to_string self recipient_id p ≡ ok s)
      × (parse_path s [] 0 nodes ≡ ok (some q))
      × (q.hop_count ≡ pos (suc n))
      × (slice (suc n) 0 q.nodes ≡ self ∷ slice n 0 p.nodes)
unfolding path_to_string ◌==ℤ◌
parse_path-path_to_string self recipient_id p n nodes ds dr e h fits =
    let rest = print_nodes n 0 p.nodes ++ print_id recipient_id in
    let (nodes', f, copied, kept) =
      parse_nodes n 1 0 p.nodes recipient_id (update nodes 0 self) (λ k _ hi. h k (omega arith)) dr
        (omega arith) in
    (
      print_id self ++ (b'-' ∷ rest),
      record { hop_count = pos (suc n); nodes = nodes' },
      rw e refl,
      parse_id self rest 0 nodes ds (omega arith)
          ∙ f
          ∙ ap (λ m. ok (some (record { hop_count = pos m; nodes = nodes' }))) (omega arith),
      refl,
      λ x. kept 0 (omega arith) x ∷ copied x,
    )
