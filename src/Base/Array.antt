-- ===== src/Base/Array.antt =====
-- Arrays of a fixed size, as functions of the index, and the loop that looks for an entry.
use Prim.Native.Nat.{ℕ, zero, suc, ◌+◌, ◌≤◌, ◌<◌}
use mathlib.Core.Path.{◌≡◌, refl, subst}
use mathlib.Core.Bool.{Bool, true, false, ◌&&◌}
use mathlib.Core.List.{List, [], ◌∷◌}
use mathlib.Core.Logic.{◌⊎◌, inl, inr}
use mathlib.Core.Option.{Option, none, some}
use native.Mathlib.Omega.{arith}
use projeto_rci.Base.Tests.{ltb, ◌==◌, if◌then◌else◌, Bool-cases}

-- `a[i] = v`
abbrev pub update {ℓ} : {A : Type ℓ} → (ℕ → A) → ℕ → A → ℕ → A
update a i v j = if i == j then v else a j

-- for (i = start; i < start + n; i++) if (test(i)) return i;
unfoldable pub first : ℕ → ℕ → (ℕ → Bool) → Option ℕ
first zero i test = none
first (suc n) i test = let rest = first n (suc i) test in if test i then some i else rest

-- What the loop says of the entries: its result passes the test, and none before it does.
abbrev pub Finds : ℕ → ℕ → (ℕ → Bool) → Option ℕ → Type 0
Finds n i test none = (k : ℕ) → i ≤ k → k < i + n → test k ≡ false
Finds n i test (some k) =
    (i ≤ k) × (k < i + n) × (test k ≡ true) × ((m : ℕ) → i ≤ m → m < k → test m ≡ false)

from_next :
    (test : ℕ → Bool) (i k : ℕ)
    → test i ≡ false
    → (i ≡ k) ⊎ (i < k)
    → (i < k → test k ≡ false)
    → test k ≡ false
from_next test i k e (inl p) h = subst (λ j. test j ≡ false) p e
from_next test i k e (inr p) h = h p

pub split_le : (i k : ℕ) → i ≤ k → (i ≡ k) ⊎ (i < k)
split_le i k h = omega arith

Finds-suc :
    (n i : ℕ) (test : ℕ → Bool) (r : Option ℕ)
    → test i ≡ false
    → Finds n (suc i) test r
    → Finds (suc n) i test r
Finds-suc n i test none e h =
    λ k lo hi. from_next test i k e (split_le i k lo) (λ p. h k p (omega arith))
Finds-suc n i test (some k) e h = (
  omega arith,
  omega arith,
  h.2,
  λ m lo hi. from_next test i m e (split_le i m lo) (λ p. h.3 m p hi),
)

pub first-Finds : (n i : ℕ) (test : ℕ → Bool) → Finds n i test (first n i test)
unfolding first
first-Finds zero i test = λ k lo hi. absurd (omega arith)
first-Finds (suc n) i test = elim (Bool-cases (test i)) [
  | inl e ↦ rw e (omega arith, omega arith, e, λ m lo hi. absurd (omega arith))
  | inr e ↦ rw e (Finds-suc n i test (first n (suc i) test) e (first-Finds n (suc i) test))
]

-- The two uses of it, at a loop from 0.
pub first-some :
    (n : ℕ) (test : ℕ → Bool) {k : ℕ}
    → first n 0 test ≡ some k
    → (k < n) × (test k ≡ true) × ((m : ℕ) → m < k → test m ≡ false)
first-some n test {k} e =
    let f = subst (Finds n 0 test) e (first-Finds n 0 test) in
    (omega arith, f.2, λ m lt. f.3 m (omega arith) lt)

pub first-none :
    (n : ℕ) (test : ℕ → Bool) → first n 0 test ≡ none → (k : ℕ) → k < n → test k ≡ false
first-none n test e k lt =
    let f = subst (Finds n 0 test) e (first-Finds n 0 test) in f k (omega arith) (omega arith)

-- The loop finds the first entry that passes.
pub first-eq_some :
    (n : ℕ) (test : ℕ → Bool) (k : ℕ)
    → k < n
    → test k ≡ true
    → ((m : ℕ) → m < k → test m ≡ false)
    → first n 0 test ≡ some k
first-eq_some n test k lt hit before = by_cases (first n 0 test) refl
  where
    by_cases : (r : Option ℕ) → first n 0 test ≡ r → first n 0 test ≡ some k
    by_cases none e = cc (first-none n test e k lt, hit)
    by_cases (some j) e = same (first-some n test e)
      where
        same :
            (j < n) × (test j ≡ true) × ((m : ℕ) → m < j → test m ≡ false) → first n 0 test ≡ some k
        same f = ground (arith, e, f.1, f.2 k, before j)

pub first-eq_none :
    (n : ℕ) (test : ℕ → Bool) → ((k : ℕ) → k < n → test k ≡ false) → first n 0 test ≡ none
first-eq_none n test all = by_cases (first n 0 test) refl
  where
    by_cases : (r : Option ℕ) → first n 0 test ≡ r → first n 0 test ≡ none
    by_cases none e = e
    by_cases (some j) e = same (first-some n test e)
      where
        same :
            (j < n) × (test j ≡ true) × ((m : ℕ) → m < j → test m ≡ false) → first n 0 test ≡ none
        same f = cc (f.1, all j f.0)

-- for (i = 0; i < n; i++) a[i] = body(a[i]);
unfoldable pub for_each {ℓ} : {A : Type ℓ} → ℕ → (A → A) → (ℕ → A) → ℕ → A
for_each zero body a = a
for_each (suc n) body a = let b = for_each n body a in update b n (body (b n))

pub for_each_lem {ℓ} :
    {A : Type ℓ} (n : ℕ) (body : A → A) (a : ℕ → A) (j : ℕ)
    → for_each n body a j ≡ (if ltb j n then body (a j) else a j)
unfolding for_each
for_each_lem zero body a j = ground arith
for_each_lem (suc n) body a j = ground (arith, for_each_lem n body a j, for_each_lem n body a n)

-- memcpy(dest, src, n), and memcmp(a, b, n) == 0 for elements that are compared by `eq`
unfoldable pub memcpy {ℓ} : {A : Type ℓ} → ℕ → (ℕ → A) → (ℕ → A) → ℕ → A
memcpy n dest src i = if ltb i n then src i else dest i

unfoldable pub memcmp {ℓ} : {A : Type ℓ} → (A → A → Bool) → ℕ → (ℕ → A) → (ℕ → A) → Bool
memcmp eq zero a b = true
memcmp eq (suc n) a b = memcmp eq n a b && eq (a n) (b n)

-- The `n` elements from index `i` on.
abbrev pub slice {ℓ} : {A : Type ℓ} → ℕ → ℕ → (ℕ → A) → List A
slice zero i a = []
slice (suc n) i a = a i ∷ slice n (suc i) a
