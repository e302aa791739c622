-- ===== src/Repo/Groups/Roles.antt =====
-- What the updates of group_members do to the role of a user.
use bit_atm.Prelude.{
  ◌≡◌, refl, ap, inl, inr, Bool, true, false, ◌&&◌, List, [], ◌∷◌, ◌++◌, arith, if◌then◌else◌,
  Bool-cases, is_empty, select, Str, str_eq, str_eq_refl, str_eq→≡, ℤ, int_eq, int_eq_refl,
  int_eq→≡,
}
use bit_atm.Db.{GroupMember, Db, update_where, delete_where}
use bit_atm.Repo.Groups.{is_member, drop_member, role_in, first_role}

-- Another row than that of the group and the user.
abbrev pub Other : ℤ → Str → ℤ → Str → Type 0
Other g' u' g u = (int_eq g' g && str_eq u' u) ≡ false

is_member-Other :
    (g' g : ℤ) (u' u : Str) (m : GroupMember)
    → Other g' u' g u
    → is_member g' u' m ≡ true
    → is_member g u m ≡ false
is_member-Other g' g u' u m o h = ground (
  arith,
  int_eq→≡ m.group_id g',
  int_eq→≡ m.group_id g,
  str_eq→≡ m.username u',
  str_eq→≡ m.username u,
  int_eq_refl g,
  str_eq_refl u,
)

select-drop :
    (g' g : ℤ) (u' u : Str) (rows : List GroupMember)
    → Other g' u' g u
    → select (is_member g u) (delete_where (is_member g' u') rows) ≡ select (is_member g u) rows
select-drop g' g u' u [] o = refl
select-drop g' g u' u (m ∷ rest) o = elim (Bool-cases (is_member g' u' m)) [
  | inl hit ↦ rw (hit, is_member-Other g' g u' u m o hit) (select-drop g' g u' u rest o)
  | inr miss ↦ elim (Bool-cases (is_member g u m)) [
    | inl here ↦ rw (miss, here, select-drop g' g u' u rest o)
    | inr there ↦ rw (miss, there) (select-drop g' g u' u rest o)
  ]
]

-- To remove one member leaves the role of every other.
pub role_in-drop_member :
    (g' g : ℤ) (u' u : Str) (d : Db)
    → Other g' u' g u
    → role_in g u (drop_member g' u' d) ≡ role_in g u d
role_in-drop_member g' g u' u d o = ap first_role (select-drop g' g u' u d.group_members o)

-- The role of the first row of the user after an update of the roles of (g', u').
pub select-set :
    (g' g : ℤ) (u' u r : Str) (rows : List GroupMember)
    → first_role
        (select (is_member g u) (update_where (is_member g' u') (λ m. record m { role = r }) rows))
      ≡ (if is_empty (select (is_member g u) rows)
          then []
          else if int_eq g' g && str_eq u' u
          then r
          else first_role (select (is_member g u) rows))
select-set g' g u' u r [] = refl
select-set g' g u' u r (m ∷ rest) = ground (
  arith,
  select-set g' g u' u r rest,
  int_eq→≡ m.group_id g',
  int_eq→≡ m.group_id g,
  int_eq→≡ g' g,
  str_eq→≡ m.username u',
  str_eq→≡ m.username u,
  str_eq→≡ u' u,
  int_eq_refl g,
  str_eq_refl u,
)

pub select-append :
    (p : GroupMember → Bool) (rows : List GroupMember) (m : GroupMember)
    → select p (rows ++ m ∷ []) ≡ select p rows ++ select p (m ∷ [])
select-append p [] m = refl
select-append p (x ∷ rest) m = elim (Bool-cases (p x)) [
  | inl h ↦ rw (h, select-append p rest m)
  | inr h ↦ rw h (select-append p rest m)
]
