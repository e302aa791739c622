-- ===== src/Prelude/Int/Print.antt =====
-- std::to_string against operator>>.
use Prim.Native.Nat.{ℕ, zero, suc, ◌+◌, ◌-◌, ◌*◌, ◌/◌, ◌%◌, ◌<◌}
use mathlib.Core.Path.{◌≡◌, refl, ap, ◌∙◌}
use mathlib.Core.Logic.{inl, inr}
use mathlib.Core.Bool.{true, false}
use mathlib.Core.Option.{some}
use mathlib.Core.List.{[], ◌∷◌, ◌++◌}
use native.Mathlib.Omega.{arith}
use bit_atm.Prelude.Tests.{ltb, ◌==◌, Bool-cases, ltb→lt}
use bit_atm.Prelude.Text.{Str, is_digit, is_space}
use bit_atm.Prelude.Int.{
  ℤ, pos, negsuc, digits_onto, to_string, skip_spaces, read_digits, signed, after_sign, read_number,
}

digits_onto-append : (f n : ℕ) (s r : Str) → digits_onto f n s ++ r ≡ digits_onto f n (s ++ r)
unfolding digits_onto
digits_onto-append zero n s r = refl
digits_onto-append (suc f) n s r = elim (Bool-cases (ltb n 10)) [
  | inl small ↦ rw small
  | inr big ↦ rw big (digits_onto-append f (n / 10) ((48 + n % 10) ∷ s) r)
]

read_digits_one :
    (a n : ℕ) (s : Str) → n < 10 → read_digits a ((48 + n) ∷ s) ≡ read_digits (a * 10 + n) s
unfolding read_digits
read_digits_one a n s h =
    let value : 48 + n - 48 ≡ n = omega arith in
    let digit : is_digit (48 + n) ≡ true = ground arith in rw (digit, value)

-- Reading the digits of `n` gives `n` back, and goes on behind them.
read_digits-digits_onto :
    (f n : ℕ) (s : Str) → n < f → read_digits 0 (digits_onto f n s) ≡ read_digits n s
unfolding digits_onto
read_digits-digits_onto zero n s h = absurd (omega arith)
read_digits-digits_onto (suc f) n s h = elim (Bool-cases (ltb n 10)) [
  | inl small ↦
      rw small (read_digits_one 0 n s (ltb→lt n 10 small) ∙ ap (λ k. read_digits k s) (omega arith))
  | inr big ↦ rw big (
      read_digits-digits_onto f (n / 10) ((48 + n % 10) ∷ s) (ground arith)
      ∙ read_digits_one (n / 10) (n % 10) s (omega arith)
      ∙ ap (λ k. read_digits k s) (omega arith))
]

abbrev StartsWithDigit : Str → Type 0
StartsWithDigit s = (c : ℕ) × (r : Str) × (s ≡ c ∷ r) × (is_digit c ≡ true)

digit_start : (f n : ℕ) (s : Str) → StartsWithDigit (digits_onto (suc f) n s)
unfolding digits_onto
digit_start zero n s = elim (Bool-cases (ltb n 10)) [
  | inl small ↦ (48 + n, s, rw small, ground arith)
  | inr big ↦ (48 + n % 10, s, rw big, ground arith)
]
digit_start (suc f) n s = elim (Bool-cases (ltb n 10)) [
  | inl small ↦ (48 + n, s, rw small, ground arith)
  | inr big ↦ rw big (digit_start f (n / 10) ((48 + n % 10) ∷ s))
]

read_digits-print :
    (n c : ℕ) (r : Str)
    → is_digit c ≡ false
    → read_digits 0 (digits_onto (suc n) n [] ++ c ∷ r) ≡ (n, c ∷ r)
unfolding read_digits
read_digits-print n c r h =
    rw (digits_onto-append (suc n) n [] (c ∷ r))
      (read_digits-digits_onto (suc n) n (c ∷ r) (omega arith) ∙ (rw h))

digit_ne :
    (c : ℕ)
    → is_digit c ≡ true
    → ((c == b'-') ≡ false) × ((c == b'+') ≡ false) × (is_space c ≡ false)
digit_ne c h = (ground arith, ground arith, ground arith)

read_number_digits : (s : Str) → StartsWithDigit s → read_number s ≡ signed false (read_digits 0 s)
unfolding read_number after_sign
read_number_digits s (c, r, e, h) =
    let (minus, plus, space) = digit_ne c h in rw (e, minus, plus, h)

read_number_minus :
    (s : Str) → StartsWithDigit s → read_number (45 ∷ s) ≡ signed true (read_digits 0 s)
unfolding read_number after_sign
read_number_minus s (c, r, e, h) = rw (e, h)

skip_spaces_digits : (s : Str) → StartsWithDigit s → skip_spaces s ≡ s
unfolding skip_spaces
skip_spaces_digits s (c, r, e, h) = rw (e, (digit_ne c h).2)

StartsWithDigit-append : (s r : Str) → StartsWithDigit s → StartsWithDigit (s ++ r)
StartsWithDigit-append s r (c, t, e, h) = (c, t ++ r, rw e, h)

-- The number that to_string wrote, with what stood behind it.
pub read_number-to_string :
    (n : ℤ) (c : ℕ) (r : Str)
    → is_digit c ≡ false
    → read_number (to_string n ++ c ∷ r) ≡ (some n, c ∷ r)
unfolding to_string signed
read_number-to_string (pos n) c r h =
    read_number_digits _ (StartsWithDigit-append _ (c ∷ r) (digit_start n n []))
    ∙ ap (signed false) (read_digits-print n c r h)
read_number-to_string (negsuc n) c r h =
    read_number_minus _ (StartsWithDigit-append _ (c ∷ r) (digit_start (suc n) (suc n) []))
    ∙ ap (signed true) (read_digits-print (suc n) c r h)

pub skip_spaces-to_string : (n : ℤ) (r : Str) → skip_spaces (to_string n ++ r) ≡ to_string n ++ r
unfolding to_string skip_spaces
skip_spaces-to_string (pos n) r =
    skip_spaces_digits _ (StartsWithDigit-append _ r (digit_start n n []))
skip_spaces-to_string (negsuc n) r = refl

pub to_string-cons : (n : ℤ) → (c : ℕ) × (r : Str) × (to_string n ≡ c ∷ r)
unfolding to_string
to_string-cons (pos n) = let (c, r, e, _) = digit_start n n [] in (c, r, e)
to_string-cons (negsuc n) = (45, digits_onto (suc (suc n)) (suc n) [], refl)
