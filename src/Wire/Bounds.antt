-- ===== src/Wire/Bounds.antt =====
-- How many identifiers a path string may hold: the array that they are stored in has 16 entries,
-- and the test that would refuse longer paths is switched off by a `false &&`.
use mathlib.Core.Path.{subst₂}
use native.Mathlib.Nat.{add-zero}
use projeto_rci.Base.{
  ℕ, suc, ◌+◌, ◌≤◌, ◌<◌, ◌≡◌, refl, ◌∙◌, inl, inr, Bool, true, false, ◌&&◌, ◌||◌, sym, Option, some,
  [], ◌∷◌, ◌++◌, pos, ltb, ◌==◌, if◌then◌else◌, length, length-append, update, arith, Bool-cases,
  lt→ltb,
}
use projeto_rci.Node.{NodeId, Text, max_nodes, Result, ok, stop, out_of_bounds}
use projeto_rci.Routing.Path.{RoutePath}
use projeto_rci.Wire.Scan.{is_digit}
use projeto_rci.Wire.PathString.{parse_path, atoi}

-- Digits and dashes, with at most two digits in a row; `n` stand in front.
abbrev pub is_plain : ℕ → Text → Bool
is_plain n [] = true
is_plain n (c ∷ s) =
    let next : ℕ = if c == b'-' then 0 else suc n in
    let rest = is_plain next s in (c == b'-' || (is_digit c && ltb n 2)) && rest

abbrev pub dashes : Text → ℕ
dashes [] = 0
dashes (c ∷ s) = let n = dashes s in if c == b'-' then suc n else n

module _ (c : ℕ) (s segment : Text) (i : ℕ) (nodes : ℕ → NodeId) where
  step_dash :
      (c == b'-') ≡ true
      → i < max_nodes
      → parse_path (c ∷ s) segment i nodes
        ≡ parse_path s [] (suc i) (update nodes i (pos (atoi 0 segment)))
  unfolding parse_path
  step_dash e lt = rw (e, parse_path, lt→ltb i max_nodes lt) refl

  step_full :
      (c == b'-') ≡ true → max_nodes ≤ i → parse_path (c ∷ s) segment i nodes ≡ stop out_of_bounds
  unfolding parse_path
  step_full e le = ground arith

  step_digit :
      (c == b'-') ≡ false
      → is_digit c && ltb (length segment) 2 ≡ true
      → parse_path (c ∷ s) segment i nodes ≡ parse_path s (segment ++ (c ∷ [])) i nodes
  unfolding parse_path
  step_digit e f = rw (e, f, parse_path) refl

plain_dash :
    (n c : ℕ) (s : Text) → is_plain n (c ∷ s) ≡ true → (c == b'-') ≡ true → is_plain 0 s ≡ true
plain_dash n c s h e = ground arith

plain_digit :
    (c : ℕ) (s segment : Text)
    → is_plain (length segment) (c ∷ s) ≡ true
    → (c == b'-') ≡ false
    → (is_digit c && ltb (length segment) 2 ≡ true)
      × (is_plain (length (segment ++ (c ∷ []))) s ≡ true)
plain_digit c s segment h e = (ground arith, rw longer (ground arith))
  where
    longer : length (segment ++ (c ∷ [])) ≡ suc (length segment)
    longer = omega (arith, length-append segment (c ∷ []))

dashes_dash : (c : ℕ) (s : Text) → (c == b'-') ≡ true → dashes (c ∷ s) ≡ suc (dashes s)
dashes_dash c s e = rw e

dashes_other : (c : ℕ) (s : Text) → (c == b'-') ≡ false → dashes (c ∷ s) ≡ dashes s
dashes_other c s e = rw e

-- The result is a path with hop count `m`.
abbrev pub IsRead : ℕ → Result (Option RoutePath) → Type 0
IsRead m r = (nodes : ℕ → NodeId) × (r ≡ ok (some (record { hop_count = pos m; nodes = nodes })))

-- A string of digits and dashes with at most two digits in a row, of which no more than 16
-- identifiers come to be stored, is read, and the hop count is the count of its dashes, on top of
-- what was stored before.
pub parse_path-plain :
    (s segment : Text) (i : ℕ) (nodes : ℕ → NodeId)
    → is_plain (length segment) s ≡ true
    → i + dashes s < max_nodes
    → IsRead (i + dashes s) (parse_path s segment i nodes)
unfolding parse_path
parse_path-plain [] segment i nodes h lt =
    rw (add-zero, lt→ltb i max_nodes (omega arith)) (update nodes i (pos (atoi 0 segment)), refl)
parse_path-plain (c ∷ s) segment i nodes h lt = elim (Bool-cases (c == b'-')) [
  | inl e ↦
      let more = dashes_dash c s e in
      subst₂ IsRead (omega arith) (sym (step_dash c s segment i nodes e (omega arith))) (
        parse_path-plain s [] (suc i) (update nodes i (pos (atoi 0 segment)))
          (plain_dash (length segment) c s h e) (omega arith))
  | inr e ↦
      let same = dashes_other c s e in
      let (digit, plain) = plain_digit c s segment h e in
      subst₂ IsRead (omega arith) (sym (step_digit c s segment i nodes e digit))
        (parse_path-plain s (segment ++ (c ∷ [])) i nodes plain (omega arith))
]

-- A string of digits and dashes with at most two digits in a row, of which more than 16
-- identifiers come to be stored, is stored past the end of the array.
pub parse_path-overflow :
    (s segment : Text) (i : ℕ) (nodes : ℕ → NodeId)
    → is_plain (length segment) s ≡ true
    → max_nodes ≤ i + dashes s
    → parse_path s segment i nodes ≡ stop out_of_bounds
unfolding parse_path
parse_path-overflow [] segment i nodes h le = ground arith
parse_path-overflow (c ∷ s) segment i nodes h le = elim (Bool-cases (c == b'-')) [
  | inl e ↦
      let more = dashes_dash c s e in
      elim (Bool-cases (ltb i max_nodes)) [
        | inl f ↦
            step_dash c s segment i nodes e (ground arith)
            ∙ parse_path-overflow s [] (suc i) (update nodes i (pos (atoi 0 segment)))
                (plain_dash (length segment) c s h e) (omega arith)
        | inr f ↦ step_full c s segment i nodes e (ground arith)
      ]
  | inr e ↦
      let same = dashes_other c s e in
      let (digit, plain) = plain_digit c s segment h e in
      step_digit c s segment i nodes e digit
      ∙ parse_path-overflow s (segment ++ (c ∷ [])) i nodes plain (omega arith)
]
