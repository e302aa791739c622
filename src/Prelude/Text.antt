-- ===== src/Prelude/Text.antt =====
-- Byte strings (std::string, QString) as lists of byte values, with the standard library's
-- operations that the sources call: find, substr, getline on a delimiter, to_string, stoi.
use Prim.Native.Nat.{ℕ}
use Prim.Native.Char.{code}
use Prim.Native.String.{String}
use mathlib.Core.Path.{◌≡◌, refl, ap, sym, ◌∙◌}
use mathlib.Core.Logic.{◌↔◌}
use mathlib.Core.Bool.{Bool, true, false, ◌&&◌, ◌||◌}
use mathlib.Core.Option.{Option, none, some}
use mathlib.Core.List.{List, [], ◌∷◌, ◌++◌, append-nil, append_assoc}
use native.Mathlib.Omega.{arith}
use bit_atm.Prelude.Tests.{leb, ◌==◌, ==_refl, if◌then◌else◌, is_empty, All}

abbrev pub Str : Type 0
Str = List ℕ

-- The bytes of a literal. Shut, so that the texts of messages stay small in proofs.
unfoldable pub text : String → Str
text String.[] = []
text (String.◌∷◌ c s) = code c ∷ text s

-- std::string operator==.
unfoldable pub str_eq : Str → Str → Bool
str_eq [] [] = true
str_eq [] (b ∷ bs) = false
str_eq (a ∷ xs) [] = false
str_eq (a ∷ xs) (b ∷ bs) = (a == b) && str_eq xs bs

pub str_eq_refl : (s : Str) → str_eq s s ≡ true
unfolding str_eq
str_eq_refl [] = refl
str_eq_refl (a ∷ xs) = ground (arith, str_eq_refl xs)

pub str_eq→≡ : (s t : Str) → str_eq s t ≡ true → s ≡ t
unfolding str_eq
str_eq→≡ [] [] h = refl
str_eq→≡ [] (b ∷ bs) h = cc
str_eq→≡ (a ∷ xs) [] h = cc
str_eq→≡ (a ∷ xs) (b ∷ bs) h = ground (arith, str_eq→≡ xs bs)

pub str_eq_iff : (s t : Str) → (str_eq s t ≡ true) ↔ (s ≡ t)
str_eq_iff s t = (str_eq→≡ s t, λ e. ap (str_eq s) (sym e) ∙ str_eq_refl s)

-- std::isdigit and std::isspace of the "C" locale.
abbrev pub is_digit : ℕ → Bool
is_digit c = leb b'0' c && leb c b'9'

abbrev pub is_space : ℕ → Bool
is_space c = (c == 32) || (leb 9 c && leb c 13)

-- find(c) with the two substr calls about it: what stands before and behind the first `c`.
unfoldable pub split_at : ℕ → Str → Option (Str × Str)
split_at c [] = none
split_at c (x ∷ xs) =
    let rest = split_at c xs in
    if x == c then some ([], xs) else elim rest [ none ↦ none | some (l, r) ↦ some (x ∷ l, r) ]

-- The first part lacks the delimiter.
pub split_at-append :
    (c : ℕ) (s r : Str) → All (λ x. (x == c) ≡ false) s → split_at c (s ++ c ∷ r) ≡ some (s, r)
unfolding split_at
split_at-append c [] r h = rw (==_refl c)
split_at-append c (x ∷ s) r h = rw (h.0, split_at-append c s r h.1)

pub split_at-none : (c : ℕ) (s : Str) → All (λ x. (x == c) ≡ false) s → split_at c s ≡ none
unfolding split_at
split_at-none c [] h = refl
split_at-none c (x ∷ s) h = rw (h.0, split_at-none c s h.1)

-- The tokens that `while (std::getline(ss, token, c))` reads. A text that ends in `c` has no
-- empty last token, and the empty text has no token.
unfoldable pub tokens_from : ℕ → Str → Str → List Str
tokens_from c acc [] = if is_empty acc then [] else acc ∷ []
tokens_from c acc (x ∷ xs) =
    let cut = tokens_from c [] xs in
    let longer = tokens_from c (acc ++ x ∷ []) xs in if x == c then acc ∷ cut else longer

unfoldable pub tokens : ℕ → Str → List Str
unfolding tokens_from
tokens c s = tokens_from c [] s

one_token :
    (c : ℕ) (acc s : Str)
    → All (λ x. (x == c) ≡ false) s
    → tokens_from c acc s ≡ (if is_empty (acc ++ s) then [] else (acc ++ s) ∷ [])
unfolding tokens_from
one_token c acc [] h = rw (append-nil acc)
one_token c acc (x ∷ s) h = rw (h.0, one_token c (acc ++ x ∷ []) s h.1, append_assoc acc (x ∷ []) s)

-- A text without the delimiter is one token.
pub tokens-one :
    (c : ℕ) (s : Str)
    → All (λ x. (x == c) ≡ false) s
    → tokens c s ≡ (if is_empty s then [] else s ∷ [])
unfolding tokens
tokens-one c s h = one_token c [] s h
