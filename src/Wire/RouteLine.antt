-- ===== src/Wire/RouteLine.antt =====
-- How the line of a ROUTE message with a path is scanned.
use projeto_rci.Base.{
  ℕ, zero, suc, ◌+◌, ◌/◌, ◌%◌, ◌≤◌, ◌<◌, ◌≡◌, refl, ap, ◌∙◌, false, some, [], ◌∷◌, ◌++◌, pos,
  length, arith,
}
use projeto_rci.Node.{NodeId, Text}
use projeto_rci.Wire.Print.{print_id, route_header}
use projeto_rci.Wire.Scan.{
  Scan, and_then, done, space, ◌>>=◌, is_space, skip_space, scan_id, number, digits, word,
  scan_word, scan_route_path, literal, nonempty,
}
use projeto_rci.Wire.RoundTrip.{TwoDigits, print_id_two}

-- No character is white space.
abbrev pub NoSpace : Text → Type 0
NoSpace [] = Unit {0}
NoSpace (c ∷ s) = (is_space c ≡ false) × NoSpace s

pub NoSpace-append : (s r : Text) → NoSpace s → NoSpace r → NoSpace (s ++ r)
NoSpace-append [] r h k = k
NoSpace-append (c ∷ s) r h k = (h.0, NoSpace-append s r h.1 k)

pub print_id-NoSpace : (id : NodeId) → TwoDigits id → NoSpace (print_id id)
print_id-NoSpace id (n, e, h) = rw (e, print_id_two n h) (ground arith, (ground arith, tt))

pub length-print_id : (id : NodeId) → TwoDigits id → length (print_id id) ≡ 2
length-print_id id (n, e, h) = rw (e, print_id_two n h) refl

scan_two :
    (n : ℕ) (s : Text)
    → n < 100
    → scan_id ((48 + n / 10) ∷ (48 + n % 10) ∷ 32 ∷ s) ≡ some (pos n, 32 ∷ s)
unfolding scan_id skip_space number digits
scan_two n s h = ground arith

pub scan_id-print_id :
    (id : NodeId) (s : Text) → TwoDigits id → scan_id (print_id id ++ (32 ∷ s)) ≡ some (id, 32 ∷ s)
scan_id-print_id id s (n, e, h) = rw (e, print_id_two n h) (scan_two n s h)

pub skip_one : (c : ℕ) (s : Text) → is_space c ≡ false → skip_space (32 ∷ c ∷ s) ≡ c ∷ s
unfolding skip_space
skip_one c s h = rw h refl

pub word_all : (n : ℕ) (w : Text) → NoSpace w → length w ≤ n → word n w ≡ (w, [])
unfolding word
word_all zero [] h le = refl
word_all zero (c ∷ w) h le = absurd (omega arith)
word_all (suc n) [] h le = refl
word_all (suc n) (c ∷ w) h le = rw (h.0, word_all n w h.1 (omega arith)) refl

pub skip_space-print_id :
    (id : NodeId) (s : Text)
    → TwoDigits id
    → skip_space (32 ∷ (print_id id ++ s)) ≡ print_id id ++ s
skip_space-print_id id s (n, e, h) =
    rw (e, print_id_two n h) (skip_one (48 + n / 10) ((48 + n % 10) ∷ s) (ground arith))

pub scan_ok :
    {A B : Type 0} (m : Scan A) (f : A → Scan B) (s rest : Text) (a : A)
    → m s ≡ some (a, rest)
    → (m >>= f) s ≡ f a rest
scan_ok m f s rest a e = ap (λ r. and_then r f) e

scan_word_all :
    (c : ℕ) (w : Text)
    → NoSpace (c ∷ w)
    → length (c ∷ w) ≤ 47
    → scan_word 47 (c ∷ w) ≡ some (c ∷ w, [])
unfolding scan_word skip_space
scan_word_all c w h le = rw (h.0) (ap nonempty (word_all 47 (c ∷ w) h le))

-- The line of a ROUTE message with a path, as it is printed and without its newline.
abbrev pub route_line : NodeId → NodeId → Text → Text
route_line self recipient_id path_str = route_header self recipient_id (32 ∷ path_str)

pub scan_route_path-route_line :
    (self recipient_id : NodeId) (c : ℕ) (w : Text)
    → TwoDigits self
    → TwoDigits recipient_id
    → NoSpace (c ∷ w)
    → length (c ∷ w) ≤ 47
    → scan_route_path (route_line self recipient_id (c ∷ w))
      ≡ some ((self, recipient_id, c ∷ w), [])
unfolding scan_route_path literal
scan_route_path-route_line self recipient_id c w ds dr h le =
    let tail = print_id recipient_id ++ (32 ∷ c ∷ w) in
    ap (λ x. and_then (scan_id x) after_id) (skip_space-print_id self (32 ∷ tail) ds)
    ∙ scan_ok scan_id after_id (print_id self ++ (32 ∷ tail)) (32 ∷ tail) self
        (scan_id-print_id self tail ds)
    ∙ ap (λ x. and_then (scan_id x) (after_ids self))
        (skip_space-print_id recipient_id (32 ∷ c ∷ w) dr)
    ∙ scan_ok scan_id (after_ids self) (print_id recipient_id ++ (32 ∷ c ∷ w)) (32 ∷ c ∷ w)
        recipient_id (scan_id-print_id recipient_id (c ∷ w) dr)
    ∙ ap (λ x. and_then (scan_word 47 x) (λ path_str. done (self, recipient_id, path_str)))
        (skip_one c w h.0)
    ∙ scan_ok (scan_word 47) (λ path_str. done (self, recipient_id, path_str)) (c ∷ w) [] (c ∷ w)
        (scan_word_all c w h le)
  where
    after_ids : NodeId → NodeId → Scan (NodeId × NodeId × Text)
    after_ids n r = space >>= λ _. scan_word 47 >>= λ path_str. done (n, r, path_str)

    after_id : NodeId → Scan (NodeId × NodeId × Text)
    after_id n = space >>= λ _. scan_id >>= after_ids n
