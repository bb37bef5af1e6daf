-- ===== src/Routing/Closest.antt =====
-- The loop that finds the new shortest path, and the choice that follows it.
use projeto_rci.Base.{
  ℕ, zero, suc, ◌<◌, ◌≡◌, sym, ◌∙◌, subst, ◌≢◌, ◌⊎◌, inl, inr, ◌↔◌, true, ◌&&◌, none, some, ltb_ℤ,
  ◌≤ℤ◌, ◌==ℤ◌, ==ℤ_iff, ltb_ℤ→le, le_of_not_ltb_ℤ, ≤ℤ_trans, arith, if◌then◌else◌, Bool-cases,
}
use projeto_rci.Node.{NodeId, NodeIndex, no_node_id, max_neighbors}
use projeto_rci.Routing.Path.{RoutePath, invalid_path}
use projeto_rci.Routing.Update.{usable, closer, closest, prefer_old}

-- There is a neighbor in column `k` and a valid path via it.
abbrev pub Usable : (ℕ → NodeId) → (ℕ → RoutePath) → ℕ → Type 0
Usable ids row k = (ids k ≢ no_node_id) × ((row k).hop_count ≢ invalid_path)

pub usable_iff :
    (ids : ℕ → NodeId) (row : ℕ → RoutePath) (k : ℕ) → (usable ids row k ≡ true) ↔ Usable ids row k
usable_iff ids row k =
    let a = ==ℤ_iff (ids k) no_node_id in
    let b = ==ℤ_iff (row k).hop_count invalid_path in
    (λ h. (λ e. ground (arith, a.1 e), λ e. ground (arith, b.1 e)), λ h. ground (arith, a, b))

-- Of the columns below `n`, `k` has a valid path, and none has one with fewer hops.
abbrev pub IsLeast : (ℕ → NodeId) → (ℕ → RoutePath) → ℕ → ℕ → Type 0
IsLeast ids row n k =
    (k < n)
    × Usable ids row k
    × ((j : ℕ) → j < n → Usable ids row j → (row k).hop_count ≤ℤ (row j).hop_count)

-- The result of the loop over `n` columns.
abbrev pub Closest : (ℕ → NodeId) → (ℕ → RoutePath) → ℕ → NodeIndex → Type 0
Closest ids row n none = (j : ℕ) → j < n → ¬ Usable ids row j
Closest ids row n (some k) = IsLeast ids row n k

split_lt : (j n : ℕ) → j < suc n → (j < n) ⊎ (n ≡ j)
split_lt j n h = omega arith

module _ (ids : ℕ → NodeId) (row : ℕ → RoutePath) where
  -- The bound of `k` holds one column further.
  extend :
      (n k : ℕ)
      → ((j : ℕ) → j < n → Usable ids row j → (row k).hop_count ≤ℤ (row j).hop_count)
      → (Usable ids row n → (row k).hop_count ≤ℤ (row n).hop_count)
      → (j : ℕ) → j < suc n
      → Usable ids row j
      → (row k).hop_count ≤ℤ (row j).hop_count
  extend n k below at j lt = go (split_lt j n lt)
    where
      go : (j < n) ⊎ (n ≡ j) → Usable ids row j → (row k).hop_count ≤ℤ (row j).hop_count
      go (inl p) = below j p
      go (inr p) = subst (λ m. Usable ids row m → (row k).hop_count ≤ℤ (row m).hop_count) p at

  extend_none :
      (n : ℕ)
      → ((j : ℕ) → j < n → ¬ Usable ids row j)
      → ¬ Usable ids row n
      → (j : ℕ) → j < suc n
      → ¬ Usable ids row j
  extend_none n below at j lt = go (split_lt j n lt)
    where
      go : (j < n) ⊎ (n ≡ j) → ¬ Usable ids row j
      go (inl p) = below j p
      go (inr p) = subst (λ m. ¬ Usable ids row m) p at

  round :
      (n : ℕ) (best : NodeIndex)
      → Closest ids row n best
      → Closest ids row (suc n) (if usable ids row n && closer row n best then some n else best)
  round n none c = elim (Bool-cases (usable ids row n)) [
    | inl e ↦ rw e (
      omega arith,
      (usable_iff ids row n).0 e,
      extend n n (λ j lt u. absurd (c j lt u)) (λ _. omega arith),
    )
    | inr e ↦ rw e (extend_none n c (λ u. cc ((usable_iff ids row n).1 u, e)))
  ]
  round n (some k) c = elim (Bool-cases (usable ids row n)) [
    | inl e ↦ elim (Bool-cases (ltb_ℤ (row n).hop_count (row k).hop_count)) [
      | inl f ↦
          rw (e, f)
            (
              omega arith,
              (usable_iff ids row n).0 e,
              extend n n
                  (λ j lt u.
                    ≤ℤ_trans (row n).hop_count (row k).hop_count (row j).hop_count
                      (ltb_ℤ→le (row n).hop_count (row k).hop_count f) (c.2 j lt u))
                  (λ _. omega arith),
            )
      | inr f ↦
          rw (e, f)
            (
              omega arith,
              c.1,
              extend n k c.2 (λ _. le_of_not_ltb_ℤ (row n).hop_count (row k).hop_count f),
            )
    ]
    | inr e ↦ rw e (omega arith, c.1, extend n k c.2 (λ u. cc ((usable_iff ids row n).1 u, e)))
  ]

  -- After `n` rounds, the loop has found a column below `n` with a neighbor and a valid path with the
  -- fewest hops of all such columns, or there is no such column.
  pub closest-Closest : (n : ℕ) → Closest ids row n (closest ids row n)
  unfolding closest
  closest-Closest zero = λ j lt. absurd (omega arith)
  closest-Closest (suc n) = round n (closest ids row n) (closest-Closest n)

-- A column that is taken, if any.
abbrev pub Taken : (ℕ → NodeId) → NodeIndex → Type 0
Taken ids none = Unit {0}
Taken ids (some k) = (k < max_neighbors) × (ids k ≢ no_node_id)

-- Keeping the old neighbor on a tie keeps the result a shortest one.
pub prefer_old-Closest :
    (ids : ℕ → NodeId) (row : ℕ → RoutePath) (old new : NodeIndex)
    → Taken ids old
    → Closest ids row max_neighbors new
    → Closest ids row max_neighbors (prefer_old row old new)
prefer_old-Closest ids row none new o c = c
prefer_old-Closest ids row (some old) none o c = c
prefer_old-Closest ids row (some old) (some new) o c =
    elim (Bool-cases ((row old).hop_count ==ℤ (row new).hop_count)) [
      | inl e ↦ rw e (
          let same = (==ℤ_iff (row old).hop_count (row new).hop_count).0 e in
          (
            o.0,
            (o.1, λ bad. c.1.1 (sym same ∙ bad)),
            λ j lt u. subst (λ h. h ≤ℤ (row j).hop_count) (sym same) (c.2 j lt u),
          ))
      | inr e ↦ rw e c
    ]
