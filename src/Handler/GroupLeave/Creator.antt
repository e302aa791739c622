-- ===== src/Handler/GroupLeave/Creator.antt =====
-- GroupLeaveHandler.cpp and the creator of a group.
use bit_atm.Prelude.{
  ℕ, ◌≡◌, ◌∙◌, Bool, true, not, ◌&&◌, ◌||◌, Option, none, some, arith, if◌then◌else◌, Str, text,
  str_eq, str_eq_refl, str_eq→≡, ℤ, int_eq→≡,
}
use bit_atm.Packet.{Packet}
use bit_atm.Db.{Db}
use bit_atm.World.{World}
use bit_atm.Action.{after}
use bit_atm.Action.Keeps.{
  Keeps, Keeps-pure, Keeps-bind, Keeps-set_db, Keeps-execute, Keeps-try_catch, Keeps-throw,
  Keeps-session, Keeps-statement, keeps_rules,
}
use bit_atm.Action.Leads.{
  Reads, Keeps-Leads, Leads-read, Leads-require, Leads-Keeps, Reads-query, from_here, Guards,
  Guards-bind, Guards-require, Guards-if, Guards-skip, Leads-guard,
}
use bit_atm.Repo.Groups
use bit_atm.Repo.Groups.{role_in, drop_member, drop_key}
use bit_atm.Repo.Groups.Roles.{Other, role_in-drop_member}
use bit_atm.Repo.Receipts
use bit_atm.Repo.Sessions
use bit_atm.Handler.Base.{handle, base_authorize}
use bit_atm.Handler.GroupLeave.{
  guard_kick, target_of, remove_target, tell, execute_leave, handler, validate,
}

abbrev pub IsCreator : ℤ → Str → Db → Type 0
IsCreator g u d = role_in g u d ≡ text "creator"

Reads-role : (g : ℤ) (u : Str) → Reads (role_in g u) (Groups.get_member_role g u)
unfolding Groups.get_member_role
Reads-role g u = Reads-query _ (role_in g u)

remove_member-IsCreator :
    (g' g : ℤ) (u' u : Str) → Other g' u' g u → Keeps (IsCreator g u) (Groups.remove_member g' u')
unfolding Groups.remove_member
remove_member-IsCreator g' g u' u o =
    Keeps-try_catch _ _
      (Keeps-bind _ _ Keeps-session (λ _. Keeps-bind _ _ Keeps-statement (λ _.
        Keeps-bind _ _ (Keeps-set_db _ (λ w h. h)) (λ _.
          Keeps-bind _ _ Keeps-statement
            (λ _. Keeps-set_db _ (λ w h. role_in-drop_member g' g u' u w.db o ∙ h))))))
      (λ e. Keeps-throw _)

delete_receipts-IsCreator :
    (g' g : ℤ) (u' u : Str) → Keeps (IsCreator g u) (Receipts.delete_receipts_for_member g' u')
unfolding Receipts.delete_receipts_for_member
delete_receipts-IsCreator g' g u' u = Keeps-execute _ _ (λ w h. h)

-- The guard of removeMember passes only if the target is another user than the creator.
target-Other :
    (g' g : ℤ) (u' u : Str) (d : Db)
    → IsCreator g u d
    → not (str_eq (role_in g' u' d) (text "creator")) ≡ true
    → Other g' u' g u
target-Other g' g u' u d c h =
    ground (arith, int_eq→≡ g' g, str_eq→≡ u' u, str_eq_refl (text "creator"))

-- What the guards let pass: never the creator; a kick only by the creator or an admin, and of an
-- admin only by the creator.
abbrev pub MayRemove : Bool → Str → Str → Type 0
MayRemove kick role target =
    (not (str_eq target (text "creator")) ≡ true)
    × (if kick
        then (not (str_eq target (text "admin") && not (str_eq role (text "creator"))) ≡ true)
          × ((str_eq role (text "creator") || str_eq role (text "admin")) ≡ true)
        else Unit {0})

pub guard_kick-Guards :
    (kick : Bool) (role target : Str)
    → Guards (MayRemove kick role target) (guard_kick kick role target)
unfolding guard_kick
guard_kick-Guards kick role target =
    Guards-bind _ _ (Guards-require _ _)
      (Guards-if kick _ _ (Guards-bind _ _ (Guards-require _ _) (Guards-require _ _)) Guards-skip)

remove_target-IsCreator :
    (p : Packet) (g' g : ℤ) (actor u : Str) → Keeps (IsCreator g u) (remove_target p g' actor)
unfolding remove_target
remove_target-IsCreator p g' g actor u = Leads-Keeps _ (
    Leads-read _ _ _ (Reads-role g' actor) (λ d c. c)
      λ d c. Leads-require _ _ _ (from_here (IsCreator g u) d c) λ member.
        Leads-read _ _ _ (Reads-role g' (target_of p actor)) (from_here (IsCreator g u) d c) λ d' e.
          let c' = from_here (IsCreator g u) d c d' e in
          Leads-guard _ _ (guard_kick-Guards _ _ _) (from_here (IsCreator g u) d' c') λ may.
            Keeps-Leads _
              (Keeps-bind _ _
                (remove_member-IsCreator g' g (target_of p actor) u
                  (target-Other g' g (target_of p actor) u d' c' may.0))
                (λ _. delete_receipts-IsCreator g' g (target_of p actor) u))
              (from_here (IsCreator g u) d' c'))

tell-Keeps : {Q : Db → Type 0} (p : Packet) (u : Str) (o : Option ℕ) → Keeps Q (tell p u o)
unfolding tell
tell-Keeps p u none = Keeps-pure tt
tell-Keeps p u (some sid) = search keeps_rules

execute_leave-IsCreator :
    (p : Packet) (sid : ℕ) (g : ℤ) (u : Str) → Keeps (IsCreator g u) (execute_leave p sid)
unfolding execute_leave
execute_leave-IsCreator p sid g u =
    search (keeps_rules, remove_target-IsCreator, tell-Keeps) depth 12

base_authorize-Keeps : {Q : Db → Type 0} (sid : ℕ) → Keeps Q (base_authorize sid)
unfolding base_authorize Sessions.find_by_token
base_authorize-Keeps sid = search keeps_rules depth 12

-- Whatever packet a GROUP_LEAVE is, whoever sends it, and whatever fails on the way, a user whose
-- role in a group is that of the creator keeps that role.
pub handle-IsCreator :
    (p : Packet) (sid : ℕ) (w : World) (g : ℤ) (u : Str)
    → IsCreator g u w.db
    → IsCreator g u (after (handle handler p sid w)).db
unfolding handle handler validate
handle-IsCreator p sid w g u c = kept.at w c
  where
    kept : Keeps (IsCreator g u) (handle handler p sid)
    kept = search (keeps_rules, base_authorize-Keeps, execute_leave-IsCreator)
