-- ===== src/Prelude/Int.antt =====
-- Signed integers, decimal printing (std::to_string) and reading (std::stoi, operator>> on int).
pub mod Print
use Prim.Native.Nat.{ℕ, zero, suc, ◌+◌, ◌-◌, ◌*◌, ◌/◌, ◌%◌}
use mathlib.Core.Path.{◌≡◌, refl, ap}
use mathlib.Core.Bool.{Bool, true, false}
use mathlib.Core.Option.{Option, none, some}
use mathlib.Core.List.{[], ◌∷◌}
use bit_atm.Prelude.Tests.{ltb, leb, ◌==◌, if◌then◌else◌, ==_refl, ==_iff}
use bit_atm.Prelude.Text.{Str, is_digit, is_space}

-- `negsuc n` is -(n + 1).
pub data ℤ : Type 0 where
  pos : ℕ → ℤ
  negsuc : ℕ → ℤ

unfoldable pub int_eq : ℤ → ℤ → Bool
int_eq (pos a) (pos b) = a == b
int_eq (pos a) (negsuc b) = false
int_eq (negsuc a) (pos b) = false
int_eq (negsuc a) (negsuc b) = a == b

pub int_eq_refl : (a : ℤ) → int_eq a a ≡ true
unfolding int_eq
int_eq_refl (pos a) = ==_refl a
int_eq_refl (negsuc a) = ==_refl a

pub int_eq→≡ : (a b : ℤ) → int_eq a b ≡ true → a ≡ b
unfolding int_eq
int_eq→≡ (pos a) (pos b) h = ap pos ((==_iff a b).0 h)
int_eq→≡ (pos a) (negsuc b) h = cc
int_eq→≡ (negsuc a) (pos b) h = cc
int_eq→≡ (negsuc a) (negsuc b) h = ap negsuc ((==_iff a b).0 h)

-- The range of a 32-bit int.
abbrev pub int_max : ℕ
int_max = 2147483647

abbrev pub in_int : ℤ → Bool
in_int (pos n) = leb n int_max
in_int (negsuc n) = leb n int_max

abbrev pub negate : ℕ → ℤ
negate zero = pos 0
negate (suc n) = negsuc n

-- The digits of `n` in front of `acc`; the fuel is more than the digits of any `n` below it.
unfoldable pub digits_onto : ℕ → ℕ → Str → Str
digits_onto zero n acc = acc
digits_onto (suc f) n acc =
    let more = digits_onto f (n / 10) ((48 + n % 10) ∷ acc) in
    if ltb n 10 then (48 + n) ∷ acc else more

unfoldable pub to_string : ℤ → Str
to_string (pos n) = digits_onto (suc n) n []
to_string (negsuc n) = 45 ∷ digits_onto (suc (suc n)) (suc n) []

unfoldable pub skip_spaces : Str → Str
skip_spaces [] = []
skip_spaces (c ∷ s) = if is_space c then skip_spaces s else c ∷ s

-- The leading digits as a number after `acc`, and what stands behind them.
unfoldable pub read_digits : ℕ → Str → ℕ × Str
read_digits acc [] = (acc, [])
read_digits acc (c ∷ s) =
    let more = read_digits (acc * 10 + (c - 48)) s in if is_digit c then more else (acc, c ∷ s)

-- A number wants at least one digit.
abbrev starts_with_digit : Str → Bool
starts_with_digit [] = false
starts_with_digit (c ∷ s) = is_digit c

signed : Bool → ℕ × Str → Option ℤ × Str
signed minus (n, rest) = (some (if minus then negate n else pos n), rest)

after_sign : Bool → Str → Option ℤ × Str
unfolding signed read_digits
after_sign minus s = if starts_with_digit s then signed minus (read_digits 0 s) else (none, s)

-- An optional sign and digits, of any size; `none` without a digit.
unfoldable pub read_number : Str → Option ℤ × Str
unfolding after_sign
read_number [] = (none, [])
read_number (c ∷ s) =
    if c == b'-'
    then after_sign true s
    else if c == b'+'
    then after_sign false s
    else after_sign false (c ∷ s)

-- std::stoi; `none` stands for std::invalid_argument and std::out_of_range.
int_of : Option ℤ → Option ℤ
int_of none = none
int_of (some n) = if in_int n then some n else none

unfoldable pub stoi : Str → Option ℤ
unfolding int_of read_number skip_spaces
stoi s = int_of (read_number (skip_spaces s)).0

stoi-tests : (stoi (32 ∷ 45 ∷ 49 ∷ 50 ∷ 124 ∷ []) ≡ some (negsuc 11)) × (stoi (97 ∷ []) ≡ none)
unfolding stoi
stoi-tests = (refl, refl)

to_string-test : to_string (negsuc 1999) ≡ 45 ∷ 50 ∷ 48 ∷ 48 ∷ 48 ∷ []
unfolding to_string digits_onto
to_string-test = refl
