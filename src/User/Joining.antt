-- ===== src/User/Joining.antt =====
-- The commands that set this node's identifier.
use projeto_rci.Base.{◌≡◌, refl, Bool, true, false, ◌||◌, if◌then◌else◌, length, ltb}
use projeto_rci.Node.{Text, codes, out_of_bounds, ok, stop}
use projeto_rci.Machine.{State, command}
use projeto_rci.User.Input.{lowercase, input_lowercase, either_command}

-- The commands that set this node's identifier
abbrev pub is_joining : Text → Bool
is_joining lower =
    either_command (codes "join") (codes "j") lower
    || either_command (codes "direct join") (codes "dj") lower

-- A line that is read as such a command
abbrev pub IsJoining : State → Text → Type 0
IsJoining s input = (s.input_state ≡ command) × (is_joining (lowercase input) ≡ true)

pub or_left : (a b : Bool) → (a || b) ≡ false → a ≡ false
or_left false b e = refl
or_left true b e = absurd (cc e)

pub or_right : (a b : Bool) → (a || b) ≡ false → b ≡ false
or_right a false e = refl
or_right false true e = absurd (cc e)
or_right true true e = absurd (cc e)

pub lowercase_of : (input lower : Text) → input_lowercase input ≡ ok lower → lowercase input ≡ lower
lowercase_of input lower e = go (ltb (length input) 256) e
  where
    go :
        (b : Bool)
        → (if b then ok (lowercase input) else stop out_of_bounds) ≡ ok lower
        → lowercase input ≡ lower
    go true h = cc h
    go false h = absurd (cc h)
