-- ===== src/Client/Sql/Unique.antt =====
-- The unique keys of a table.
use bit_atm.Prelude.{
  ◌≡◌, refl, inl, inr, Bool, true, false, List, [], ◌∷◌, ◌++◌, map, arith, Bool-cases, select, any,
  All, str_eq_refl, str_eq→≡,
}
use bit_atm.Db.{update_where}
use bit_atm.Client.Sql.{Key, key_eq, has_key, insert_or_ignore, upsert}

pub key_eq_refl : (k : Key) → key_eq k k ≡ true
key_eq_refl [] = refl
key_eq_refl (a ∷ k) = ground (arith, str_eq_refl a, key_eq_refl k)

pub key_eq→≡ : (j k : Key) → key_eq j k ≡ true → j ≡ k
key_eq→≡ [] [] h = refl
key_eq→≡ [] (b ∷ k) h = cc
key_eq→≡ (a ∷ j) [] h = cc
key_eq→≡ (a ∷ j) (b ∷ k) h = ground (arith, str_eq→≡ a b, key_eq→≡ j k)

-- No later key equals an earlier one.
abbrev pub IsUnique : List Key → Type 0
IsUnique [] = Unit
IsUnique (k ∷ ks) = All (λ j. key_eq j k ≡ false) ks × IsUnique ks

module _ {A : Type 0} (key : A → Key) where
  abbrev pub Keyed : List A → Type 0
  Keyed rows = IsUnique (map key rows)

  pub map-update_where :
      (p : A → Bool) (f : A → A) (rows : List A)
      → ((a : A) → key (f a) ≡ key a)
      → map key (update_where p f rows) ≡ map key rows
  map-update_where p f [] same = refl
  map-update_where p f (a ∷ rows) same = elim (Bool-cases (p a)) [
    | inl h ↦ rw (h, same a, map-update_where p f rows same)
    | inr h ↦ rw (h, map-update_where p f rows same)
  ]

  pub Keyed-update_where :
      (p : A → Bool) (f : A → A) (rows : List A)
      → ((a : A) → key (f a) ≡ key a)
      → Keyed rows
      → Keyed (update_where p f rows)
  Keyed-update_where p f rows same u = rw (map-update_where p f rows same) u

  All-select :
      (P : Key → Type 0) (p : A → Bool) (rows : List A)
      → All P (map key rows)
      → All P (map key (select p rows))
  All-select P p [] h = tt
  All-select P p (a ∷ rows) (h, hs) = elim (Bool-cases (p a)) [
    | inl e ↦ rw e (h, All-select P p rows hs)
    | inr e ↦ rw e (All-select P p rows hs)
  ]

  pub Keyed-select : (p : A → Bool) (rows : List A) → Keyed rows → Keyed (select p rows)
  Keyed-select p [] u = tt
  Keyed-select p (a ∷ rows) (u, us) = elim (Bool-cases (p a)) [
    | inl e ↦ rw e (All-select _ p rows u, Keyed-select p rows us)
    | inr e ↦ rw e (Keyed-select p rows us)
  ]

  All-append :
      (P : Key → Type 0) (rows : List A) (a : A)
      → All P (map key rows)
      → P (key a)
      → All P (map key (rows ++ a ∷ []))
  All-append P [] a h p = (p, tt)
  All-append P (b ∷ rows) a (h, hs) p = (h, All-append P rows a hs p)

  flipped : (j k : Key) → key_eq j k ≡ false → key_eq k j ≡ false
  flipped j k h = ground (arith, key_eq→≡ k j, key_eq_refl j)

  pub Keyed-append :
      (rows : List A) (a : A)
      → any (has_key key (key a)) rows ≡ false
      → Keyed rows
      → Keyed (rows ++ a ∷ [])
  Keyed-append [] a h u = (tt, tt)
  Keyed-append (b ∷ rows) a h (u, us) = elim (Bool-cases (key_eq (key b) (key a))) [
    | inl e ↦ ground arith
    | inr e ↦ (All-append _ rows a u (flipped _ _ e), Keyed-append rows a (ground arith) us)
  ]

  pub Keyed-insert_or_ignore :
      (a : A) (rows : List A) → Keyed rows → Keyed (insert_or_ignore key a rows)
  unfolding insert_or_ignore
  Keyed-insert_or_ignore a rows u = elim (Bool-cases (any (has_key key (key a)) rows)) [
    | inl e ↦ rw e u
    | inr e ↦ rw e (Keyed-append rows a e u)
  ]

  pub Keyed-upsert :
      (f : A → A) (a : A) (rows : List A)
      → ((b : A) → key (f b) ≡ key b)
      → Keyed rows
      → Keyed (upsert key f a rows)
  unfolding upsert
  Keyed-upsert f a rows same u = elim (Bool-cases (any (has_key key (key a)) rows)) [
    | inl e ↦ rw e (Keyed-update_where _ f rows same u)
    | inr e ↦ rw e (Keyed-append rows a e u)
  ]

  ignored : (a : A) (l : List A) → any (has_key key (key a)) l ≡ true → insert_or_ignore key a l ≡ l
  unfolding insert_or_ignore
  ignored a l h = rw h

  any-append : (rows : List A) (a : A) → any (has_key key (key a)) (rows ++ a ∷ []) ≡ true
  any-append [] a = rw (key_eq_refl (key a))
  any-append (b ∷ rows) a = ground (arith, any-append rows a)

  -- A row with the key is there after the insert.
  pub any-insert_or_ignore :
      (a : A) (rows : List A) → any (has_key key (key a)) (insert_or_ignore key a rows) ≡ true
  unfolding insert_or_ignore
  any-insert_or_ignore a rows = elim (Bool-cases (any (has_key key (key a)) rows)) [
    | inl e ↦ rw (e, e)
    | inr e ↦ rw (e, any-append rows a)
  ]

  -- A second insert with the key changes nothing.
  pub insert_or_ignore_again :
      (a b : A) (rows : List A)
      → key b ≡ key a
      → insert_or_ignore key b (insert_or_ignore key a rows) ≡ insert_or_ignore key a rows
  insert_or_ignore_again a b rows e =
      second (insert_or_ignore key a rows) (any-insert_or_ignore a rows)
    where
      second : (l : List A) → any (has_key key (key a)) l ≡ true → insert_or_ignore key b l ≡ l
      second l h = ignored b l (rw e h)
