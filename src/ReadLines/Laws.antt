-- ===== src/ReadLines/Laws.antt =====
-- What `read_lines` does with the bytes: none is lost, and which newlines it sees.
use projeto_rci.Base.{
  ℕ, ◌+◌, ◌≤◌, ◌<◌, ◌≡◌, refl, sym, ap, ◌∙◌, ◌≢◌, List, [], ◌∷◌, ◌++◌, map, ◌==◌, ==_ne,
  if◌then◌else◌, length, length-append, arith,
}
use mathlib.Core.List.{append_assoc}
use projeto_rci.Node.{Text}
use projeto_rci.ReadLines.{
  newline, received, rl_ok, rl_overflow, c_string, Scanned, scan, finish, read_lines,
}
use projeto_rci.ReadLines.Split.{
  unsplit, NoNewline, AllNoNewline, NoNewline-append, scan-unsplit, scan-AllNoNewline,
  scan-NoNewline, scan-none, read_lines-scan, read_lines_received, length-unsplit-le,
}

module _ (size : ℕ) (buffer : Text) (b : ℕ) (bs : Text) where
  abbrev scanned : Scanned
  scanned = scan (length (b ∷ bs)) [] (buffer ++ (b ∷ bs))

  -- After a read of at least one byte that fitted into the buffer, the buffer is not full: there
  -- is room for the next read.
  pub read_lines-lt_size :
      0 < size
      → length buffer + length (b ∷ bs) ≤ size
      → length (read_lines size buffer (received (b ∷ bs))).buffer < size
  read_lines-lt_size pos fits = rw (read_lines-scan size buffer b bs) (
      ground (
        arith,
        length-unsplit-le scanned.lines scanned.remainder,
        ap length (scan-unsplit (length (b ∷ bs)) [] (buffer ++ (b ∷ bs))),
        length-append buffer (b ∷ bs),
      ))

-- From an empty buffer, a read of at least one byte is split at every newline: neither the lines
-- nor the remainder has one, and they are the bytes that were read, in order. The lines are
-- handled, each cut at its first null character; the remainder stays in the buffer, or is dropped
-- by an overflow if it fills the buffer.
pub read_lines-splits :
    (size b : ℕ) (bs : Text)
    → (ls : List Text) × (rest : Text) × (unsplit ls rest ≡ b ∷ bs)
      × AllNoNewline ls
      × NoNewline rest
      × (read_lines size [] (received (b ∷ bs)) ≡ (
          if length rest == size
          then record { buffer = []; handled = map c_string ls; result = rl_overflow }
          else record { buffer = rest; handled = map c_string ls; result = rl_ok }))
read_lines-splits size b bs =
    let s = scan (length (b ∷ bs)) [] (b ∷ bs) in
    (
      s.lines,
      s.remainder,
      scan-unsplit (length (b ∷ bs)) [] (b ∷ bs),
      scan-AllNoNewline (length (b ∷ bs)) [] (b ∷ bs) tt,
      scan-NoNewline (length (b ∷ bs)) [] (b ∷ bs) refl tt,
      read_lines-scan size [] b bs,
    )

finish_ok :
    (size : ℕ) (rest : Text)
    → length rest ≢ size
    → finish size (record { lines = []; remainder = rest })
      ≡ record { buffer = rest; handled = []; result = rl_ok }
finish_ok size rest h = rw (==_ne (length rest) size h)

-- The loop looks at the first `len` bytes of the buffer, not at the `len` bytes that were read. So
-- if an unfinished line is in the buffer, its end arrives as the last byte of a read, and the
-- buffer is not filled, then the line is not handled, but stays in the buffer with its newline.
pub read_lines-misses_line :
    (size x : ℕ) (xs ys : Text)
    → NoNewline (x ∷ xs)
    → NoNewline ys
    → length (x ∷ xs) + length ys + 1 < size
    → read_lines size (x ∷ xs) (received (ys ++ (newline ∷ [])))
      ≡ record { buffer = (x ∷ xs) ++ (ys ++ (newline ∷ [])); handled = []; result = rl_ok }
read_lines-misses_line size x xs ys hx hy fits =
    read_lines_received size (x ∷ xs) chunk (omega (arith, length-append ys (newline ∷ [])))
    ∙ ap (finish size) (
        ap (scan (length chunk) []) (sym (append_assoc (x ∷ xs) ys (newline ∷ [])))
        ∙ scan-none (length chunk) [] ((x ∷ xs) ++ ys) (newline ∷ [])
            (NoNewline-append (x ∷ xs) ys hx hy)
            (omega (arith, length-append ys (newline ∷ []), length-append xs ys)))
    ∙ finish_ok size (((x ∷ xs) ++ ys) ++ (newline ∷ []))
        (omega (arith, length-append (xs ++ ys) (newline ∷ []), length-append xs ys))
    ∙ ap (λ (t : Text). record { buffer = t; handled = []; result = rl_ok })
        (append_assoc (x ∷ xs) ys (newline ∷ []))
  where
    chunk : Text
    chunk = ys ++ (newline ∷ [])
