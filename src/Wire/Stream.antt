-- ===== src/Wire/Stream.antt =====
-- The std::istream operations that operator>> calls, over the bytes left and the two state bits.
use bit_atm.Prelude.{
  ℕ, Bool, true, false, not, ◌||◌, Option, none, some, [], ◌∷◌, ◌==◌, if◌then◌else◌, is_empty, Str,
  ℤ, pos, negsuc, int_max, in_int, skip_spaces, read_number,
}

pub record IStream : Type 0 where
  pub rest : Str
  pub eof : Bool
  pub fail : Bool

abbrev pub open_stream : Str → IStream
open_stream s = record { rest = s; eof = false; fail = false }

-- A sentry on a stream that is not good() sets failbit and extracts nothing.
abbrev pub refuse : IStream → IStream
refuse s = record s { fail = true }

abbrev pub at_end : IStream
at_end = record { rest = []; eof = true; fail = true }

abbrev pub good : IStream → Bool
good s = not (s.eof || s.fail)

-- The largest or least int, which a number out of range is read as.
abbrev pub clamp_int : ℤ → ℤ
clamp_int (pos n) = pos int_max
clamp_int (negsuc n) = negsuc int_max

abbrev pub took_number : Option ℤ → Str → ℤ × IStream
took_number none rest = (pos 0, record { rest = rest; eof = is_empty rest; fail = true })
took_number (some n) rest =
    if in_int n
    then (n, record { rest = rest; eof = is_empty rest; fail = false })
    else (clamp_int n, record { rest = rest; eof = is_empty rest; fail = true })

unfoldable pub int_at : ℤ → Str → ℤ × IStream
int_at old [] = (old, at_end)
int_at old (c ∷ s) = took_number (read_number (c ∷ s)).0 (read_number (c ∷ s)).1

-- `is >> n` on an int that holds `old`.
unfoldable pub read_int : ℤ → IStream → ℤ × IStream
read_int old s = if good s then int_at old (skip_spaces s.rest) else (old, refuse s)

unfoldable pub char_at : Str → IStream
char_at [] = at_end
char_at (c ∷ s) = open_stream s

-- `is >> sep` on a char, whose value nothing reads.
unfoldable pub read_char : IStream → IStream
unfolding char_at skip_spaces
read_char s = if good s then char_at (skip_spaces s.rest) else refuse s

-- The bytes up to the delimiter, what stands behind it, and whether it was found.
unfoldable pub take_until : ℕ → Str → Str × Str × Bool
take_until d [] = ([], [], false)
take_until d (c ∷ s) =
    let (line, rest, found) = take_until d s in
    if c == d then ([], s, true) else (c ∷ line, rest, found)

unfoldable pub line_at : ℕ → Str → Str × IStream
unfolding take_until
line_at d [] = ([], at_end)
line_at d (c ∷ s) =
    let (line, rest, found) = take_until d (c ∷ s) in
    (line, record { rest = rest; eof = not found; fail = false })

-- std::getline(is, line, d), where the string holds `old`.
unfoldable pub getline : ℕ → Str → IStream → Str × IStream
unfolding line_at
getline d old s = if good s then line_at d s.rest else (old, refuse s)

-- `if (is.eof()) is.clear();`
unfoldable pub clear_at_eof : IStream → IStream
clear_at_eof s = if s.eof then open_stream s.rest else s
