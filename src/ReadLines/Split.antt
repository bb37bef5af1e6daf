-- ===== src/ReadLines/Split.antt =====
-- How the loop of `read_lines` splits the bytes.
use projeto_rci.Base.{
  ℕ, zero, suc, ◌+◌, ◌-◌, ◌≤◌, ◌<◌, ◌≡◌, refl, sym, ap, ◌∙◌, ◌≢◌, inl, inr, List, [], ◌∷◌, ◌++◌,
  ◌==◌, ==_iff, ==_ne, length, take, length-append, arith, Bool-cases,
}
use mathlib.Core.List.{append_assoc, append-nil}
use projeto_rci.Node.{Text}
use projeto_rci.ReadLines.{newline, received, add_line, scan, finish, read_lines, read_lines_at}

-- The bytes that lines with their newlines, and a remainder, come from.
abbrev pub unsplit : List Text → Text → Text
unsplit [] rest = rest
unsplit (l ∷ ls) rest = l ++ (newline ∷ unsplit ls rest)

abbrev pub NoNewline : Text → Type 0
NoNewline [] = Unit {0}
NoNewline (b ∷ bs) = (b ≢ newline) × NoNewline bs

abbrev pub AllNoNewline : List Text → Type 0
AllNoNewline [] = Unit {0}
AllNoNewline (l ∷ ls) = NoNewline l × AllNoNewline ls

pub NoNewline-append : (xs ys : Text) → NoNewline xs → NoNewline ys → NoNewline (xs ++ ys)
NoNewline-append [] ys hx hy = hy
NoNewline-append (x ∷ xs) ys hx hy = (hx.0, NoNewline-append xs ys hx.1 hy)

-- The scan splits the bytes at newlines, and loses none.
pub scan-unsplit :
    (n : ℕ) (line rest : Text)
    → unsplit (scan n line rest).lines (scan n line rest).remainder ≡ line ++ rest
unfolding scan
scan-unsplit zero line rest = refl
scan-unsplit (suc n) line [] = sym (append-nil line)
scan-unsplit (suc n) line (b ∷ rest) = elim (Bool-cases (b == newline)) [
  | inl e ↦ rw (e, scan, scan-unsplit n [] rest, ← (==_iff b newline).0 e)
  | inr e ↦ rw (e, scan) (scan-unsplit n (line ++ (b ∷ [])) rest ∙ append_assoc line (b ∷ []) rest)
]

pub scan-AllNoNewline :
    (n : ℕ) (line rest : Text) → NoNewline line → AllNoNewline (scan n line rest).lines
unfolding scan
scan-AllNoNewline zero line rest h = tt
scan-AllNoNewline (suc n) line [] h = tt
scan-AllNoNewline (suc n) line (b ∷ rest) h = elim (Bool-cases (b == newline)) [
  | inl e ↦ rw (e, scan) (h, scan-AllNoNewline n [] rest tt)
  | inr e ↦
      rw (e, scan)
        (scan-AllNoNewline n (line ++ (b ∷ [])) rest
          (NoNewline-append line (b ∷ []) h ((λ q. ground arith), tt)))
]

-- A scan of all bytes leaves no newline behind.
pub scan-NoNewline :
    (n : ℕ) (line rest : Text)
    → n ≡ length rest
    → NoNewline line
    → NoNewline (scan n line rest).remainder
unfolding scan
scan-NoNewline zero line [] e h = NoNewline-append line [] h tt
scan-NoNewline zero line (b ∷ rest) e h = absurd (omega arith)
scan-NoNewline (suc n) line [] e h = h
scan-NoNewline (suc n) line (b ∷ rest) e h = elim (Bool-cases (b == newline)) [
  | inl f ↦ rw (f, scan) (scan-NoNewline n [] rest (omega arith) tt)
  | inr f ↦
      rw (f, scan)
        (scan-NoNewline n (line ++ (b ∷ [])) rest (omega arith)
          (NoNewline-append line (b ∷ []) h ((λ q. ground arith), tt)))
]

-- The scan looks at the first `n` bytes: those of the lines, with their newlines, and of the part of
-- the remainder in which it has met no newline.
pub scan-seen :
    (n : ℕ) (line rest : Text)
    → n ≤ length rest
    → NoNewline line
    → (seen : Text) × (unseen : Text) × ((scan n line rest).remainder ≡ seen ++ unseen)
      × NoNewline seen
      × (length (unsplit (scan n line rest).lines seen) ≡ length line + n)
unfolding scan
scan-seen zero line rest le h = (line, rest, refl, h, omega arith)
scan-seen (suc n) line [] le h = absurd (omega arith)
scan-seen (suc n) line (b ∷ rest) le h = elim (Bool-cases (b == newline)) [
  | inl e ↦
      let (seen, unseen, parts, clean, count) = scan-seen n [] rest (omega arith) tt in
      rw (e, scan)
        (
          seen,
          unseen,
          parts,
          clean,
          omega (arith, length-append line (newline ∷ unsplit (scan n [] rest).lines seen), count),
        )
  | inr e ↦
      let longer = line ++ (b ∷ []) in
      let (seen, unseen, parts, clean, count) =
        scan-seen n longer rest (omega arith)
          (NoNewline-append line (b ∷ []) h ((λ q. ground arith), tt)) in
      rw (e, scan) (seen, unseen, parts, clean, omega (arith, length-append line (b ∷ []), count))
]

-- A scan that meets no newline delivers nothing.
pub scan-none :
    (n : ℕ) (line xs rest : Text)
    → NoNewline xs
    → n ≤ length xs
    → scan n line (xs ++ rest) ≡ record { lines = []; remainder = line ++ (xs ++ rest) }
unfolding scan
scan-none zero line xs rest h le = refl
scan-none (suc n) line [] rest h le = absurd (omega arith)
scan-none (suc n) line (x ∷ xs) rest h le =
    rw (==_ne x newline h.0, scan)
      (scan-none n (line ++ (x ∷ [])) xs rest h.1 (omega arith)
        ∙ ap (λ (t : Text). record { lines = []; remainder = t })
            (append_assoc line (x ∷ []) (xs ++ rest)))

take_whole : (s : Text) → take (length s) s ≡ s
take_whole [] = refl
take_whole (c ∷ s) = ap (◌∷◌ c) (take_whole s)

pub take_all : (n : ℕ) (s : Text) → take (n + length s - n) s ≡ s
take_all n s = ap (λ k. take k s) (exact n (length s)) ∙ take_whole s
  where
    exact : (n k : ℕ) → n + k - n ≡ k
    exact n k = omega arith

-- With the buffer as it was, the remainder is kept whole.
pub read_lines-scan :
    (size : ℕ) (buffer : Text) (b : ℕ) (bs : Text)
    → read_lines size buffer (received (b ∷ bs))
      ≡ finish size (scan (length (b ∷ bs)) [] (buffer ++ (b ∷ bs)))
unfolding read_lines read_lines_at
read_lines-scan size buffer b bs =
    let s = scan (length (b ∷ bs)) [] (buffer ++ (b ∷ bs)) in
    ap (λ (t : Text). finish size (record s { remainder = t }))
      (take_all (length buffer) s.remainder)

pub read_lines_received :
    (size : ℕ) (buffer chunk : Text)
    → 0 < length chunk
    → read_lines size buffer (received chunk)
      ≡ finish size (scan (length chunk) [] (buffer ++ chunk))
read_lines_received size buffer [] h = absurd (omega arith)
read_lines_received size buffer (b ∷ bs) h = read_lines-scan size buffer b bs

pub length-unsplit-le : (ls : List Text) (rest : Text) → length rest ≤ length (unsplit ls rest)
length-unsplit-le [] rest = omega arith
length-unsplit-le (l ∷ ls) rest =
    omega (arith, length-unsplit-le ls rest, length-append l (newline ∷ unsplit ls rest))

-- Lines with their newlines, and a remainder, are scanned as what they are.
scan-line :
    (m n : ℕ) (l line rest : Text)
    → NoNewline l
    → m ≡ length l + suc n
    → scan m line (l ++ (newline ∷ rest)) ≡ add_line (line ++ l) (scan n [] rest)
unfolding scan
scan-line zero n l line rest h e = absurd (omega arith)
scan-line (suc m) n [] line rest h e =
    let same : m ≡ n = omega arith in
    ap (λ k. add_line line (scan k [] rest)) same
    ∙ ap (λ t. add_line t (scan n [] rest)) (sym (append-nil line))
scan-line (suc m) n (c ∷ l) line rest h e =
    rw (==_ne c newline h.0, scan)
      (scan-line m n l (line ++ (c ∷ [])) rest h.1 (omega arith)
        ∙ ap (λ t. add_line t (scan n [] rest)) (append_assoc line (c ∷ []) l))

pub scan-lines :
    (ls : List Text) (rest : Text)
    → AllNoNewline ls
    → NoNewline rest
    → scan (length (unsplit ls rest)) [] (unsplit ls rest) ≡ record { lines = ls; remainder = rest }
scan-lines [] rest h k =
    ap (scan (length rest) []) (sym (append-nil rest))
    ∙ scan-none (length rest) [] rest [] k (omega arith)
    ∙ ap (λ (t : Text). record { lines = []; remainder = t }) (append-nil rest)
scan-lines (l ∷ ls) rest h k =
    scan-line (length (unsplit (l ∷ ls) rest)) (length (unsplit ls rest)) l [] (unsplit ls rest) h.0
      (omega (arith, length-append l (newline ∷ unsplit ls rest)))
    ∙ ap (add_line l) (scan-lines ls rest h.1 k)
