-- ===== src/Handler/CreateGroup/Roles.antt =====
-- The roles of a new group.
use bit_atm.Prelude.{
  suc, ◌≡◌, refl, ◌∙◌, Bool, true, false, List, [], ◌∷◌, if◌then◌else◌, any, Str, text, str_eq, ℤ,
  int_eq_refl,
}
use bit_atm.World.{World}
use bit_atm.Action.{done, for_each, ◌>>=◌, pure, now}
use bit_atm.Action.Quiet.{IsQuiet, execute-IsQuiet}
use bit_atm.Action.Runs.{at_tick}
use bit_atm.Repo.Groups.{role_in, upsert_member, add_member}
use bit_atm.Repo.Groups.Enrol.{role_in-upsert_member}
use bit_atm.Handler.CreateGroup.{enrol}

-- The world after an addMember that did not fail.
abbrev added : ℤ → Str → Str → World → World
added g u r w = record w {
  tick = suc (suc w.tick);
  db = upsert_member g u r (now (at_tick (suc (suc w.tick)) w)) w.db;
}

add_member-run :
    (g : ℤ) (u r : Str) (w : World) → IsQuiet w.env → add_member g u r w ≡ done tt (added g u r w)
unfolding add_member
add_member-run g u r w q = execute-IsQuiet w q _ _

abbrev all_added : ℤ → List Str → World → World
all_added g [] w = w
all_added g (m ∷ ms) w = all_added g ms (added g m (text "member") w)

members-run :
    (g : ℤ) (ms : List Str) (w : World)
    → IsQuiet w.env
    → for_each (λ m. add_member g m (text "member")) ms w ≡ done tt (all_added g ms w)
unfolding for_each ◌>>=◌ pure
members-run g [] w q = refl
members-run g (m ∷ ms) w q =
    rw (add_member-run g m (text "member") w q) (members-run g ms (added g m (text "member") w) q)

role_in-all_added :
    (g : ℤ) (u : Str) (ms : List Str) (w : World)
    → role_in g u (all_added g ms w).db
      ≡ (if any (λ m. str_eq m u) ms then text "member" else role_in g u w.db)
role_in-all_added g u [] w = refl
role_in-all_added g u (m ∷ ms) w =
    role_in-all_added g u ms (added g m (text "member") w)
    ∙ rw
        (
          role_in-upsert_member g g m u (text "member") (now (at_tick (suc (suc w.tick)) w)) w.db,
          int_eq_refl g,
        )
        (choose (any (λ m. str_eq m u) ms) (str_eq m u))
  where
    choose :
        (a b : Bool)
        → (if a then text "member" else if b then text "member" else role_in g u w.db)
          ≡ (if (if b then true else a) then text "member" else role_in g u w.db)
    choose true true = refl
    choose true false = refl
    choose false true = refl
    choose false false = refl

-- Where nothing fails, enrolling the creator and the listed members of a group returns, and then a
-- listed user has the role of a member, even if it is the creator; else the creator has its role,
-- and every other user the role that it had.
pub role_in-enrol :
    (g : ℤ) (creator u : Str) (members : List Str) (w : World)
    → IsQuiet w.env
    → (x : World) × (enrol g creator members w ≡ done tt x)
      × (role_in g u x.db ≡ (
          if any (λ m. str_eq m u) members
          then text "member"
          else if str_eq creator u
          then text "creator"
          else role_in g u w.db))
unfolding enrol ◌>>=◌
role_in-enrol g creator u members w q = (
  all_added g members (added g creator (text "creator") w),
  rw (add_member-run g creator (text "creator") w q)
      (members-run g members (added g creator (text "creator") w) q),
  role_in-all_added g u members (added g creator (text "creator") w)
      ∙ rw (
        role_in-upsert_member g g creator u (text "creator") (now (at_tick (suc (suc w.tick)) w))
            w.db,
        int_eq_refl g,
      ),
)
