-- ===== src/Routing/View.antt =====
-- What a stored path says, whatever else its array holds; `are_paths_equal` compares that.
use native.Mathlib.Decide.{ℕ_discrete}
use projeto_rci.Base.{
  ℕ, zero, suc, ◌+◌, ◌≤◌, ◌<◌, ◌≡◌, refl, sym, ap, subst, ◌∙◌, ◌↔◌, ◌⊎◌, inl, inr, true, false,
  none, some, ℤ, pos_part, arith, if◌then◌else◌, Bool-cases, Option, ◌==ℤ◌, ==ℤ_iff, List, slice,
  memcmp, memcpy, split_le,
}
use projeto_rci.Node.{NodeId}
use projeto_rci.Routing.Path.{RoutePath, invalid_path, is_invalid, copy_path, are_paths_equal}

abbrev pub Said : Type 0
Said = Option (ℤ × List NodeId)

abbrev said : ℤ → List NodeId → Said
said hop_count ids = if hop_count ==ℤ invalid_path then none else some (hop_count, ids)

-- The hop count and the nodes that it counts, or nothing for an invalid path.
abbrev pub view : RoutePath → Said
view p = if is_invalid p then none else some (p.hop_count, slice (pos_part p.hop_count) 0 p.nodes)

pub view_invalid : (p : RoutePath) → p.hop_count ≡ invalid_path → view p ≡ none
view_invalid p e = rw ((==ℤ_iff p.hop_count invalid_path).1 e)

slice-eq :
    (n i : ℕ) (a b : ℕ → NodeId)
    → ((k : ℕ) → i ≤ k → k < i + n → a k ≡ b k)
    → slice n i a ≡ slice n i b
slice-eq zero i a b h = refl
slice-eq (suc n) i a b h =
    let tails = slice-eq n (suc i) a b (λ k lo hi. h k (omega arith) (omega arith)) in
    cc (h i (omega arith) (omega arith), tails)

at_or_after :
    (a b : ℕ → NodeId) (i k : ℕ) → a i ≡ b i → (i < k → a k ≡ b k) → (i ≡ k) ⊎ (i < k) → a k ≡ b k
at_or_after a b i k here later (inl p) = subst (λ j. a j ≡ b j) p here
at_or_after a b i k here later (inr p) = later p

eq_of_slice :
    (n i : ℕ) (a b : ℕ → NodeId)
    → slice n i a ≡ slice n i b
    → (k : ℕ) → i ≤ k
    → k < i + n
    → a k ≡ b k
eq_of_slice zero i a b e k lo hi = absurd (omega arith)
eq_of_slice (suc n) i a b e k lo hi =
    at_or_after a b i k (cc) (λ p. eq_of_slice n (suc i) a b (cc) k p (omega arith))
      (split_le i k lo)

memcmp→eq : (n : ℕ) (a b : ℕ → NodeId) → memcmp ◌==ℤ◌ n a b ≡ true → (k : ℕ) → k < n → a k ≡ b k
unfolding memcmp
memcmp→eq zero a b h k lt = absurd (omega arith)
memcmp→eq (suc n) a b h k lt =
    let both : (memcmp ◌==ℤ◌ n a b ≡ true) × ((a n ==ℤ b n) ≡ true) = ground arith in
    elim (ℕ_discrete n k) [
      | yes p ↦ subst (λ j. a j ≡ b j) p ((==ℤ_iff (a n) (b n)).0 both.1)
      | no p ↦ memcmp→eq n a b both.0 k (omega arith)
    ]

eq→memcmp : (n : ℕ) (a b : ℕ → NodeId) → ((k : ℕ) → k < n → a k ≡ b k) → memcmp ◌==ℤ◌ n a b ≡ true
unfolding memcmp
eq→memcmp zero a b h = refl
eq→memcmp (suc n) a b h =
    rw (eq→memcmp n a b (λ k lt. h k (omega arith)), (==ℤ_iff (a n) (b n)).1 (h n (omega arith)))

pub copy_path-nodes :
    (dest src : RoutePath) (k : ℕ)
    → k < pos_part src.hop_count
    → (copy_path dest src).nodes k ≡ src.nodes k
unfolding copy_path memcpy
copy_path-nodes dest src k lt = ground arith

-- A copy says what the original says.
pub view-copy_path : (d p : RoutePath) → view (copy_path d p) ≡ view p
unfolding copy_path
view-copy_path d p = ap (said p.hop_count) (
    slice-eq (pos_part p.hop_count) 0 (copy_path d p).nodes p.nodes
      (λ k _ lt. copy_path-nodes d p k (omega arith)))

module _ (p q : RoutePath) where
  abbrev AgreeUpTo : Type 0
  AgreeUpTo = (k : ℕ) → k < pos_part p.hop_count → p.nodes k ≡ q.nodes k

  agree→view : p.hop_count ≡ q.hop_count → AgreeUpTo → view p ≡ view q
  agree→view e h =
      let ids = slice-eq (pos_part p.hop_count) 0 p.nodes q.nodes (λ k _ lt. h k (omega arith)) in
      ap (said p.hop_count) ids ∙ ap (λ n. said n (slice (pos_part n) 0 q.nodes)) e

  view→agree : view p ≡ view q → (p.hop_count ≡ q.hop_count) × AgreeUpTo
  view→agree e = elim (Bool-cases (is_invalid p)) [
    | inl f ↦
        let a = (==ℤ_iff p.hop_count invalid_path).0 f in
        let b : is_invalid q ≡ true = ground arith in
        (
          a ∙ sym ((==ℤ_iff q.hop_count invalid_path).0 b),
          λ k lt. absurd (omega (arith, ap pos_part a)),
        )
    | inr f ↦
        let b : is_invalid q ≡ false = ground arith in
        let same : ◌≡◌ {A = Said} (some (p.hop_count, slice (pos_part p.hop_count) 0 p.nodes))
            (some (q.hop_count, slice (pos_part q.hop_count) 0 q.nodes)) =
          rw (f, b) at e in
        let hc : p.hop_count ≡ q.hop_count = cc in
        let sl : slice (pos_part p.hop_count) 0 p.nodes ≡ slice (pos_part q.hop_count) 0 q.nodes =
          cc in
        (
          hc,
          λ k lt.
              eq_of_slice (pos_part p.hop_count) 0 p.nodes q.nodes
                (sl ∙ ap (λ n. slice (pos_part n) 0 q.nodes) (sym hc)) k (omega arith)
                (omega arith),
        )
  ]

  agree→equal : p.hop_count ≡ q.hop_count → AgreeUpTo → are_paths_equal p q ≡ true
  unfolding are_paths_equal
  agree→equal e h =
      let m = eq→memcmp (pos_part p.hop_count) p.nodes q.nodes h in
      let c = (==ℤ_iff p.hop_count q.hop_count).1 e in ground arith

  equal→agree : are_paths_equal p q ≡ true → (p.hop_count ≡ q.hop_count) × AgreeUpTo
  unfolding are_paths_equal
  equal→agree e =
      let c : (p.hop_count ==ℤ q.hop_count) ≡ true = ground arith in
      (
        (==ℤ_iff p.hop_count q.hop_count).0 c,
        λ k lt.
            let m : memcmp ◌==ℤ◌ (pos_part p.hop_count) p.nodes q.nodes ≡ true = ground arith in
            memcmp→eq (pos_part p.hop_count) p.nodes q.nodes m k lt,
      )

  -- `are_paths_equal` holds exactly of two invalid paths, and of two valid ones with the same hop
  -- count and the same nodes up to it.
  pub are_paths_equal_iff : (are_paths_equal p q ≡ true) ↔ (view p ≡ view q)
  are_paths_equal_iff = (
    λ e. let a = equal→agree e in agree→view a.0 a.1,
    λ e. let a = view→agree e in agree→equal a.0 a.1,
  )
