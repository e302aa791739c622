-- ===== src/Client/Sql/Sorted.antt =====
-- ORDER BY.
use bit_atm.Prelude.{◌≡◌, refl, inl, inr, Bool, true, false, List, [], ◌∷◌, arith, Bool-cases, Str}
use mathlib.Core.List.{Perm}
use mathlib.Core.List.Perm
use bit_atm.Client.Sql.{str_less, insert_before, sort_by}

module _ {A : Type 0} (before : A → A → Bool) where
  abbrev Follows : A → List A → Type 0
  Follows a [] = Unit
  Follows a (b ∷ l) = before b a ≡ false

  -- No row comes strictly before the one in front of it.
  abbrev pub IsSorted : List A → Type 0
  IsSorted [] = Unit
  IsSorted (a ∷ l) = Follows a l × IsSorted l

  insert-Follows :
      (b a : A) (l : List A)
      → before a b ≡ false
      → Follows b l
      → Follows b (insert_before before a l)
  unfolding insert_before
  insert-Follows b a [] h f = h
  insert-Follows b a (c ∷ l) h f = elim (Bool-cases (before c a)) [
    | inl e ↦ rw e f
    | inr e ↦ rw e h
  ]

  insert-IsSorted :
      (asym : (a b : A) → before b a ≡ true → before a b ≡ false) (a : A) (l : List A)
      → IsSorted l
      → IsSorted (insert_before before a l)
  unfolding insert_before
  insert-IsSorted asym a [] s = (tt, tt)
  insert-IsSorted asym a (b ∷ l) (f, s) = elim (Bool-cases (before b a)) [
    | inl e ↦ rw e (insert-Follows b a l (asym a b e) f, insert-IsSorted asym a l s)
    | inr e ↦ rw e (e, (f, s))
  ]

  pub sort_by-IsSorted :
      (asym : (a b : A) → before b a ≡ true → before a b ≡ false) (l : List A)
      → IsSorted (sort_by before l)
  unfolding sort_by
  sort_by-IsSorted asym [] = tt
  sort_by-IsSorted asym (a ∷ l) =
      insert-IsSorted asym a (sort_by before l) (sort_by-IsSorted asym l)

  insert-perm : (a : A) (l : List A) → Perm (insert_before before a l) (a ∷ l)
  unfolding insert_before
  insert-perm a [] = Perm.refl (a ∷ [])
  insert-perm a (b ∷ l) = elim (Bool-cases (before b a)) [
    | inl e ↦ rw e (Perm.trans (Perm.cons b (insert-perm a l)) (Perm.swap a b l))
    | inr e ↦ rw e (Perm.refl (a ∷ b ∷ l))
  ]

  pub sort_by-perm : (l : List A) → Perm (sort_by before l) l
  unfolding sort_by
  sort_by-perm [] = Perm.refl []
  sort_by-perm (a ∷ l) =
      Perm.trans (insert-perm a (sort_by before l)) (Perm.cons a (sort_by-perm l))

pub str_less-asym : (s t : Str) → str_less t s ≡ true → str_less s t ≡ false
unfolding str_less
str_less-asym [] [] h = refl
str_less-asym [] (b ∷ t) h = ground arith
str_less-asym (a ∷ s) [] h = refl
str_less-asym (a ∷ s) (b ∷ t) h = ground (arith, str_less-asym s t)
