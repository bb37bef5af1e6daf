-- ===== src/ReadLines.antt =====
-- read-lines.c: the lines of a descriptor, read in chunks through a buffer.
--
-- The buffer is modelled by the bytes in use, the first `*buffer_index` of it; what `read()` returns
-- is an argument. The handler is called once for each line, in order, before `read_lines` returns.
pub mod Split
pub mod Laws
mod Tests
use projeto_rci.Base.{
  ℕ, zero, suc, ◌+◌, ◌-◌, Bool, true, false, List, [], ◌∷◌, ◌++◌, map, ◌==◌, if◌then◌else◌, length,
  take,
}
use projeto_rci.Node.{Text}

abbrev pub newline : ℕ
newline = 10

-- What `read()` returns: -1, or the bytes that it has put into the buffer, none at the end of file.
pub data ReadResult : Type 0 where
  failed : ReadResult
  received : Text → ReadResult

-- `enum RLResult`
pub data RlResult : Type 0 where
  rl_ok rl_end rl_error rl_overflow : RlResult

-- The text up to the first null character.
abbrev pub c_string : Text → Text
c_string [] = []
c_string (b ∷ bs) = let rest = c_string bs in if b == 0 then [] else b ∷ rest

pub record Scanned : Type 0 where
  pub lines : List Text
  pub remainder : Text

abbrev pub add_line : Text → Scanned → Scanned
add_line l s = record s { lines = l ∷ s.lines }

-- The loop over `i`, with the rounds left, the bytes from `message_start_index` up to `i`, and
-- those from `i` on. The lines are given without their newlines, the remainder is what is moved to
-- the beginning of the buffer.
unfoldable pub scan : ℕ → Text → Text → Scanned
scan zero line rest = record { lines = []; remainder = line ++ rest }
scan (suc n) line [] = record { lines = []; remainder = line }
scan (suc n) line (b ∷ rest) = elim (b == newline) [
  | true ↦ add_line line (scan n [] rest)
  | false ↦ scan n (line ++ (b ∷ [])) rest
]

-- The new contents of the buffer, the calls of the handler, and the result.
pub record Read : Type 0 where
  pub buffer : Text
  pub handled : List Text
  pub result : RlResult

abbrev pub finish : ℕ → Scanned → Read
finish buffer_size s =
    if length s.remainder == buffer_size
    then record { buffer = []; handled = map c_string s.lines; result = rl_overflow }
    else record { buffer = s.remainder; handled = map c_string s.lines; result = rl_ok }

-- `*buffer_index` is read again after the handlers, which may have changed it: `index` is what was
-- in use of the buffer before the bytes came, `index_now` what is in use then.
abbrev pub cut : ℕ → ℕ → Scanned → Scanned
cut index index_now s = record s {
  remainder = take (index_now + length s.remainder - index) s.remainder;
}

unfoldable pub read_lines_at : ℕ → ℕ → Text → ReadResult → Read
read_lines_at buffer_size index_now buffer failed = record {
  buffer = buffer;
  handled = [];
  result = rl_error;
}
read_lines_at buffer_size index_now buffer (received []) = record {
  buffer = [];
  handled = [];
  result = rl_end;
}
read_lines_at buffer_size index_now buffer (received (b ∷ bs)) =
    finish buffer_size
      (cut (length buffer) index_now (scan (length (b ∷ bs)) [] (buffer ++ (b ∷ bs))))

-- With handlers that leave the buffer alone
unfoldable pub read_lines : ℕ → Text → ReadResult → Read
read_lines buffer_size buffer r = read_lines_at buffer_size (length buffer) buffer r
