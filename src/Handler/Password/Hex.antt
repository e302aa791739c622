-- ===== src/Handler/Password/Hex.antt =====
-- toHex and fromHex of LoginHandler.cpp.
use bit_atm.Prelude.{
  ℕ, ◌+◌, ◌*◌, ◌/◌, ◌%◌, ◌≡◌, refl, sym, ◌∙◌, inl, inr, true, false, ◌||◌, some, [], ◌∷◌, arith,
  ltb, ◌==◌, Bool-cases, every, All, Str, is_space,
}
use bit_atm.Handler.Password.{to_hex, from_hex, hex_digit, hex_value, hex_byte}

abbrev pub IsBytes : Str → Type 0
IsBytes s = All (λ c. ltb c 256 ≡ true) s

hex_value-hex_digit : (h : ℕ) → ltb h 16 ≡ true → hex_value (hex_digit h) ≡ some h
hex_value-hex_digit h e = ground arith

hex_digit_plain :
    (h : ℕ) → ltb h 16 ≡ true → (is_space (hex_digit h) || hex_digit h == b'+') ≡ false
hex_digit_plain h e = ground arith

hex_digit_positive : (h : ℕ) → ltb h 16 ≡ true → (hex_digit h == b'-') ≡ false
hex_digit_positive h e = ground arith

hex_byte-hex_digit :
    (h l : ℕ)
    → ltb h 16 ≡ true
    → ltb l 16 ≡ true
    → hex_byte (hex_digit h) (hex_digit l) ≡ some (h * 16 + l)
hex_byte-hex_digit h l e f =
    rw (
      hex_digit_plain h e,
      hex_digit_positive h e,
      hex_value-hex_digit h e,
      hex_value-hex_digit l f,
    )

high_digit : (c : ℕ) → ltb c 256 ≡ true → ltb (c / 16) 16 ≡ true
high_digit c e = ground arith

low_digit : (c : ℕ) → ltb (c % 16) 16 ≡ true
low_digit c = ground arith

digits : (c : ℕ) → c / 16 * 16 + c % 16 ≡ c
digits c = omega arith

-- What toHex writes of bytes, fromHex reads back.
pub from_hex-to_hex : (s : Str) → IsBytes s → from_hex (to_hex s) ≡ some s
unfolding from_hex to_hex
from_hex-to_hex [] h = refl
from_hex-to_hex (c ∷ s) h = rw (
  hex_byte-hex_digit (c / 16) (c % 16) (high_digit c h.0) (low_digit c),
  from_hex-to_hex s h.1,
  digits c,
)

colonless : (d : ℕ) → ltb d 16 ≡ true → (hex_digit d == b':') ≡ false
colonless d e = ground arith

-- No colon, which separates salt and hash.
pub to_hex-Lacks : (s : Str) → IsBytes s → All (λ c. (c == b':') ≡ false) (to_hex s)
unfolding to_hex
to_hex-Lacks [] h = tt
to_hex-Lacks (c ∷ s) h =
    (colonless (c / 16) (high_digit c h.0), (colonless (c % 16) (low_digit c), to_hex-Lacks s h.1))

pub every-IsBytes : (s : Str) → every (λ c. ltb c 256) s ≡ true → IsBytes s
every-IsBytes [] h = tt
every-IsBytes (c ∷ s) h = elim (Bool-cases (ltb c 256)) [
  | inl e ↦ (e, every-IsBytes s (sym (rw e) ∙ h))
  | inr e ↦ ground arith
]
