-- ===== src/Wire/Scan.antt =====
-- Reading messages: the conversions of `sscanf` that the program's formats are made of. A scan that
-- fails returns `none`; the program compares the count of conversions with that of the format.
use projeto_rci.Base.{
  ℕ, zero, suc, ◌+◌, ◌-◌, ◌*◌, ◌%◌, Bool, ◌&&◌, ◌||◌, Option, none, some, [], ◌∷◌, pos, negsuc, ltb,
  leb, ◌==◌, if◌then◌else◌,
}
use projeto_rci.Node.{NodeId, Text, Node, codes}

abbrev pub Scan : Type 0 → Type 0
Scan A = Text → Option (A × Text)

abbrev pub and_then : {A B : Type 0} → Option (A × Text) → (A → Scan B) → Option (B × Text)
and_then none f = none
and_then (some (a, rest)) f = f a rest

infixl 5 ◌>>=◌
abbrev pub ◌>>=◌ : {A B : Type 0} → Scan A → (A → Scan B) → Scan B
◌>>=◌ m f s = and_then (m s) f

abbrev pub is_space : ℕ → Bool
is_space c = c == 32 || (leb 9 c && leb c 13)

abbrev pub is_digit : ℕ → Bool
is_digit c = leb 48 c && leb c 57

-- A white-space character of the format: any amount of white space.
unfoldable pub skip_space : Text → Text
skip_space [] = []
skip_space (c ∷ s) = let rest = skip_space s in if is_space c then rest else c ∷ s

-- Any other character of the format.
unfoldable pub literal : Text → Scan (Unit {0})
literal [] s = some (tt, s)
literal (c ∷ cs) [] = none
literal (c ∷ cs) (d ∷ s) = let rest = literal cs s in if c == d then rest else none

-- The digits from here on, after the value so far.
unfoldable pub digits : ℕ → Text → ℕ × Text
digits acc [] = (acc, [])
digits acc (c ∷ s) =
    let rest = digits (acc * 10 + (c - 48)) s in if is_digit c then rest else (acc, c ∷ s)

-- At least one digit.
unfoldable pub number : Scan ℕ
number [] = none
number (c ∷ s) = if is_digit c then some (digits 0 (c ∷ s)) else none

-- The conversion of an `int` to `signed char`.
abbrev pub char_of_nonneg : ℕ → NodeId
char_of_nonneg n = let m = n % 256 in if ltb m 128 then pos m else negsuc (255 - m)

abbrev pub char_of_neg : ℕ → NodeId
char_of_neg n =
    let m = n % 256 in if m == 0 then pos 0 else if leb m 128 then negsuc (m - 1) else pos (256 - m)

abbrev pub as_char : (ℕ → NodeId) → Option (ℕ × Text) → Option (NodeId × Text)
as_char f none = none
as_char f (some (n, s)) = some (f n, s)

abbrev pub signed : Text → Option (NodeId × Text)
signed [] = none
signed (c ∷ s) =
    if c == 45
    then as_char char_of_neg (number s)
    else if c == 43
    then as_char char_of_nonneg (number s)
    else as_char char_of_nonneg (number (c ∷ s))

-- "%hhd", `NODE_ID_IN`
unfoldable pub scan_id : Scan NodeId
scan_id s = signed (skip_space s)

abbrev pub cons_char : ℕ → Text × Text → Text × Text
cons_char c (w, rest) = (c ∷ w, rest)

-- At most `n` characters that are no white space.
unfoldable pub word : ℕ → Text → Text × Text
word zero s = ([], s)
word (suc n) [] = ([], [])
word (suc n) (c ∷ s) = let rest = word n s in if is_space c then ([], c ∷ s) else cons_char c rest

abbrev pub nonempty : Text × Text → Option (Text × Text)
nonempty ([], rest) = none
nonempty (c ∷ w, rest) = some (c ∷ w, rest)

-- "%<n>s"
unfoldable pub scan_word : ℕ → Scan Text
scan_word n s = nonempty (word n (skip_space s))

abbrev pub space : Scan (Unit {0})
space s = some (tt, skip_space s)

abbrev pub done : {A : Type 0} → A → Scan A
done a s = some (a, s)

-- "ROUTE %hhd %hhd %47s"
unfoldable pub scan_route_path : Scan (NodeId × NodeId × Text)
scan_route_path = literal (codes "ROUTE") >>= λ _. space >>= λ _. scan_id >>= λ neighbor_id.
    space >>= λ _. scan_id >>= λ recipient_id.
    space >>= λ _. scan_word 47 >>= λ path_str. done (neighbor_id, recipient_id, path_str)

-- "ROUTE %hhd %hhd"
unfoldable pub scan_route : Scan (NodeId × NodeId)
scan_route = literal (codes "ROUTE") >>= λ _. space >>= λ _. scan_id >>= λ neighbor_id.
    space >>= λ _. scan_id >>= λ recipient_id. done (neighbor_id, recipient_id)

-- "CHAT %hhd %hhd%n": what is left of the text begins at the position that "%n" gives.
unfoldable pub scan_chat : Scan (NodeId × NodeId)
scan_chat = literal (codes "CHAT") >>= λ _. space >>= λ _. scan_id >>= λ sender_id.
    space >>= λ _. scan_id >>= λ recipient_id. done (sender_id, recipient_id)

-- "<word> %hhd %15s %5s"
unfoldable pub scan_node : Text → Scan Node
scan_node name = literal name >>= λ _. space >>= λ _. scan_id >>= λ id. space >>= λ _.
    scan_word 15 >>= λ ip_addr. space >>= λ _.
    scan_word 5 >>= λ tcp_port. done (record { id = id; ip_addr = ip_addr; tcp_port = tcp_port })

-- "%hhd %15s %5s\n", an entry of a node list
unfoldable pub scan_entry : Scan Node
scan_entry = scan_id >>= λ id. space >>= λ _. scan_word 15 >>= λ ip_addr. space >>= λ _.
    scan_word 5 >>= λ tcp_port.
    space >>= λ _. done (record { id = id; ip_addr = ip_addr; tcp_port = tcp_port })

-- "<word> %hhd"
unfoldable pub scan_named : Text → Scan NodeId
scan_named name = literal name >>= λ _. space >>= λ _. scan_id >>= λ id. done id

abbrev pub result_of : {A : Type 0} → Option (A × Text) → Option A
result_of none = none
result_of (some (a, rest)) = some a

-- What a scan has read, if all its conversions succeeded.
abbrev pub read : {A : Type 0} → Scan A → Text → Option A
read m text = result_of (m text)
