-- ===== src/User/Input.antt =====
-- main.c: reading a line of the user: the names of the commands, and the scans that store what they
-- have read as they go.
use projeto_rci.Base.{
  ℕ, zero, suc, ◌+◌, ◌-◌, Bool, true, false, ◌&&◌, ◌||◌, Option, none, some, [], ◌∷◌, ◌++◌, pos,
  negsuc, ◌==◌, if◌then◌else◌, length, ltb, leb,
}
use projeto_rci.Node.{NodeId, Text, out_of_bounds, Result, ok, stop}
use projeto_rci.Machine.{printed, State, M, ◌>>◌, pure, modify, log}
use projeto_rci.Wire.Scan.{Scan, is_space, scan_word}
use projeto_rci.Wire.Print.{decimal}

-- `USER_COMMAND_BUF_SIZE`
abbrev pub user_command_buf_size : ℕ
user_command_buf_size = 256

abbrev pub tolower : ℕ → ℕ
tolower c = if leb 65 c && leb c 90 then c + 32 else c

abbrev pub lowercase : Text → Text
lowercase [] = []
lowercase (c ∷ s) = tolower c ∷ lowercase s

-- The copy goes on to the end of the input, whether or not the buffer has room.
abbrev pub input_lowercase : Text → Result Text
input_lowercase input =
    if ltb (length input) user_command_buf_size then ok (lowercase input) else stop out_of_bounds

-- `COMPARE_COMMAND`: the name, and then the end or a white-space character.
abbrev pub compare_command : Text → Text → Bool
compare_command [] [] = true
compare_command [] (c ∷ s) = is_space c
compare_command (c ∷ name) [] = false
compare_command (c ∷ name) (d ∷ s) = let rest = compare_command name s in c == d && rest

abbrev pub either_command : Text → Text → Text → Bool
either_command name short input = compare_command name input || compare_command short input

-- One conversion, whose value is stored at once: what fails later does not take it back.
abbrev pub stored : {A : Type 0} → (A → State → State) → Option (A × Text) → M (Option Text)
stored store none = pure none
stored store (some (a, rest)) = modify (store a) >> pure (some rest)

abbrev pub convert : {A : Type 0} → Scan A → (A → State → State) → Option Text → M (Option Text)
convert m store none = pure none
convert m store (some text) = stored store (m text)

-- "%*s"
abbrev pub any_word : Scan Text
any_word s = scan_word (length s) s

abbrev pub rest_of : {A : Type 0} → Option (A × Text) → Option Text
rest_of none = none
rest_of (some (a, rest)) = some rest

abbrev pub word_skipped : Option Text → Option Text
word_skipped none = none
word_skipped (some text) = rest_of (any_word text)

-- What stands behind a command of one word or, by its long name, of two.
abbrev pub arguments : Bool → Text → Option Text
arguments short input =
    if short then word_skipped (some input) else word_skipped (word_skipped (some input))

abbrev pub scan_argument : {A : Type 0} → Scan A → Option Text → Option (A × Text)
scan_argument m none = none
scan_argument m (some text) = m text

-- "%hhd" in a text that is shown
abbrev pub print_plain : NodeId → Text
print_plain (pos n) = decimal n
print_plain (negsuc n) = b'-' ∷ decimal (suc n)

abbrev pub spaces : ℕ → Text
spaces zero = []
spaces (suc n) = b' ' ∷ spaces n

-- "%-<n>s"
abbrev pub print_left : ℕ → Text → Text
print_left n text = text ++ spaces (n - length text)

abbrev pub print : Text → M (Unit {0})
print text = log (printed text)
