-- ===== src/Repo/Groups/Enrol.antt =====
-- addMember as an update of the map from a group and a user to a role.
use bit_atm.Prelude.{
  ℕ, ◌≡◌, refl, sym, ◌∙◌, inl, inr, Bool, true, false, not, ◌&&◌, List, [], ◌∷◌, arith,
  if◌then◌else◌, Bool-cases, is_empty, select, any, Str, str_eq, str_eq_refl, str_eq→≡, ℤ, int_eq,
  int_eq_refl, int_eq→≡,
}
use mathlib.Core.List.{append-nil}
use bit_atm.Db.{GroupMember, Db}
use bit_atm.Repo.Groups.{is_member, role_in, first_role, upsert_member}
use bit_atm.Repo.Groups.Roles.{select-set, select-append}

pub any-select :
    (p : GroupMember → Bool) (rows : List GroupMember) → any p rows ≡ not (is_empty (select p rows))
any-select p [] = refl
any-select p (m ∷ rest) = elim (Bool-cases (p m)) [
  | inl e ↦ rw e
  | inr e ↦ rw e (any-select p rest)
]

pub none_first : (l : List GroupMember) → is_empty l ≡ true → l ≡ []
none_first [] h = refl
none_first (m ∷ l) h = ground arith

or_empty : (l : List GroupMember) → (if is_empty l then [] else first_role l) ≡ first_role l
or_empty [] = refl
or_empty (m ∷ l) = refl

module _ (g : ℤ) (u r : Str) (t : ℕ) (d : Db) where
  has_none :
      any (is_member g u) d.group_members ≡ false → select (is_member g u) d.group_members ≡ []
  has_none e = none_first _ (flip _ (sym (any-select (is_member g u) d.group_members) ∙ e))
    where
      flip : (b : Bool) → not b ≡ false → b ≡ true
      flip true h = refl
      flip false h = sym h

  has_some :
      any (is_member g u) d.group_members ≡ true
      → is_empty (select (is_member g u) d.group_members) ≡ false
  has_some e = flip _ (sym (any-select (is_member g u) d.group_members) ∙ e)
    where
      flip : (b : Bool) → not b ≡ true → b ≡ false
      flip true h = sym h
      flip false h = refl

  named_row : role_in g u (upsert_member g u r t d) ≡ r
  named_row = elim (Bool-cases (any (is_member g u) d.group_members)) [
    | inl e ↦ rw (e, select-set g g u u r d.group_members, has_some e, int_eq_refl g, str_eq_refl u)
    | inr e ↦
        rw (
          e,
          select-append (is_member g u) d.group_members,
          has_none e,
          int_eq_refl g,
          str_eq_refl u,
        )
  ]

module _ (g' g : ℤ) (u' u r : Str) (t : ℕ) (d : Db) where
  other_row :
      (int_eq g' g && str_eq u' u) ≡ false → role_in g u (upsert_member g' u' r t d) ≡ role_in g u d
  other_row o = elim (Bool-cases (any (is_member g' u') d.group_members)) [
    | inl e ↦
        rw (e, select-set g' g u' u r d.group_members, o)
          (or_empty (select (is_member g u) d.group_members))
    | inr e ↦ rw (e, select-append (is_member g u) d.group_members, o, append-nil)
  ]

  both : (a b : Bool) → (a && b) ≡ true → (a ≡ true) × (b ≡ true)
  both true b h = (refl, h)
  both false b h = ground arith

  -- The role of a user in a group after an addMember: the new role for the row named, whether it was
  -- there or not, and the role as it was for every other.
  pub role_in-upsert_member :
      role_in g u (upsert_member g' u' r t d)
      ≡ (if int_eq g' g && str_eq u' u then r else role_in g u d)
  role_in-upsert_member = elim (Bool-cases (int_eq g' g && str_eq u' u)) [
    | inr o ↦ rw o (other_row o)
    | inl h ↦ rw h (here (both (int_eq g' g) (str_eq u' u) h))
  ]
    where
      here :
          ((int_eq g' g ≡ true) × (str_eq u' u ≡ true))
          → role_in g u (upsert_member g' u' r t d) ≡ r
      here (e, f) = rw (int_eq→≡ g' g e, str_eq→≡ u' u f) (named_row g u r t d)
