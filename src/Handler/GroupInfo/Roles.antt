-- ===== src/Handler/GroupInfo/Roles.antt =====
-- The role that a grant of administration leaves to a user.
use bit_atm.Prelude.{
  suc, ◌≡◌, refl, ◌∙◌, Bool, true, false, not, List, [], ◌∷◌, if◌then◌else◌, is_empty, select, any,
  Str, text, str_eq, ℤ, int_eq_refl,
}
use bit_atm.Packet.{Packet}
use bit_atm.Db.{GroupMember, Db}
use bit_atm.World.{World}
use bit_atm.Action.{done, ◌>>=◌, pure, throw}
use bit_atm.Action.Quiet.{IsQuiet, execute-IsQuiet, query-IsQuiet}
use bit_atm.Action.Runs.{at_tick}
use bit_atm.Repo.Groups
use bit_atm.Repo.Groups.{role_in, is_member, set_role, first_role}
use bit_atm.Repo.Groups.Roles.{select-set}
use bit_atm.Repo.Groups.Enrol.{any-select}
use bit_atm.Handler.GroupInfo.{grant_admin}

by_rows :
    (b : Bool) (r : Str) (l : List GroupMember)
    → (if is_empty l then [] else if b then r else first_role l)
      ≡ (if b then (if not (is_empty l) then r else []) else first_role l)
by_rows true r [] = refl
by_rows true r (m ∷ l) = refl
by_rows false r [] = refl
by_rows false r (m ∷ l) = refl

pub role_in-set_role :
    (g : ℤ) (v u r : Str) (d : Db)
    → role_in g u (set_role g v r d) ≡ (
        if str_eq v u
        then (if any (is_member g u) d.group_members then r else [])
        else role_in g u d)
role_in-set_role g v u r d =
    select-set g g v u r d.group_members
    ∙ rw (int_eq_refl g, any-select (is_member g u) d.group_members)
        (by_rows (str_eq v u) r (select (is_member g u) d.group_members))

-- Where nothing fails, a grant by the creator of a group with a target returns, and then the target, the
-- creator itself not excepted, is an administrator if it has a row in the group, and every other user
-- has the role that it had.
pub role_in-grant_admin :
    (p : Packet) (g : ℤ) (actor u : Str) (w : World)
    → IsQuiet w.env
    → str_eq (role_in g actor w.db) (text "creator") ≡ true
    → is_empty p.key ≡ false
    → (x : World) × (grant_admin p g actor w ≡ done tt x)
      × (role_in g u x.db ≡ (
          if str_eq p.key u
          then (if any (is_member g u) w.db.group_members then text "admin" else [])
          else role_in g u w.db))
unfolding grant_admin Groups.get_member_role Groups.update_role ◌>>=◌ pure throw
role_in-grant_admin p g actor u w q c k = (
  record w { tick = suc (suc (suc (suc w.tick))); db = set_role g p.key (text "admin") w.db },
  rw (query-IsQuiet w q, c, k) (execute-IsQuiet (at_tick (suc (suc w.tick)) w) q _ _),
  role_in-set_role g p.key u (text "admin") w.db,
)
