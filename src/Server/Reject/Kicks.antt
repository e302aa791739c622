-- ===== src/Server/Reject/Kicks.antt =====
-- GroupLeaveHandler on requests to remove another member.
use bit_atm.Prelude.{
  ℕ, ◌≡◌, refl, sym, ◌∙◌, inl, inr, Bool, true, false, not, ◌&&◌, ◌||◌, some, Bool-cases, is_empty,
  Str, text, str_eq, ℤ, stoi,
}
use bit_atm.Error.{db}
use bit_atm.Packet.{Packet}
use bit_atm.World.{World}
use bit_atm.Action.{Action, pure, throw, gets, ◌>>=◌}
use bit_atm.Repo.Groups
use bit_atm.Action.{go_on, Run}
use bit_atm.Action.Leads.{Guards-require}
use bit_atm.Action.Runs.{at_tick, Asked, answered, lost, query-run}
use bit_atm.Repo.Groups
use bit_atm.Repo.Groups.{role_in}
use bit_atm.Handler.Base.{handle}
use bit_atm.Handler.GroupLeave
use bit_atm.Handler.GroupLeave.{guard_kick}
use bit_atm.Server.Reject.{Rejected, Rejected-here}
use bit_atm.Server.Reject.Outsiders.{earlier, moved, handle-Rejected}

-- Who may remove whom: the creator anyone but a creator, an administrator anyone but a creator or an
-- administrator.
abbrev pub may_kick : Str → Str → Bool
may_kick actor target =
    not (str_eq target (text "creator"))
    && (str_eq actor (text "creator")
        || (str_eq actor (text "admin") && not (str_eq target (text "admin"))))

guard_kick-Rejected :
    (actor target : Str) (k : Action (Unit {0})) (w : World)
    → may_kick actor target ≡ false
    → Rejected w ((guard_kick true actor target >>= λ _. k) w)
unfolding guard_kick ◌>>=◌ pure throw
guard_kick-Rejected actor target k w h = elim (Bool-cases (str_eq target (text "creator"))) [
  | inl c ↦ rw c (Rejected-here w _ _ refl)
  | inr c ↦ elim (Bool-cases (str_eq actor (text "creator"))) [
    | inl a ↦ absurd (clash (sym (rw (c, a)) ∙ h))
    | inr a ↦ elim (Bool-cases (str_eq target (text "admin"))) [
      | inl t ↦ rw (c, a, t) (Rejected-here w _ _ refl)
      | inr t ↦ elim (Bool-cases (str_eq actor (text "admin"))) [
        | inl b ↦ absurd (clash (sym (rw (c, a, t, b)) ∙ h))
        | inr b ↦ rw (c, a, t, b) (Rejected-here w _ _ refl)
      ]
    ]
  ]
]
  where
    clash : true ≡ false → ⊥
    clash e = cc

read_role :
    (g : ℤ) (u : Str) (k : Str → Action (Unit {0})) (w : World)
    → ((n : ℕ) → Rejected w (k (role_in g u w.db) (at_tick n w)))
    → Rejected w ((Groups.get_member_role g u >>= k) w)
unfolding ◌>>=◌ Groups.get_member_role
read_role g u k w refuses = read (query-run _ _ w)
  where
    read : {r : Run Str} → Asked (λ x. role_in g u x.db) w r → Rejected w (go_on k r)
    read (lost m n e) = record {
      error = db m;
      world = at_tick n w;
      threw_it = rw e;
      app = tt;
      tables = refl;
      clients = refl;
      sessions = refl;
      sent = refl;
    }
    read (answered n e) = rw e (refuses n)

module _ (p : Packet) (sid : ℕ) (w : World) (g : ℤ) (number : stoi p.to ≡ some g)
    (kick : is_empty p.body ≡ false)
    (refused : may_kick (role_in g (w.sessions sid).username w.db) (role_in g p.body w.db)
      ≡ false) where
  remove_refused :
      (n : ℕ) → Rejected w (GroupLeave.remove_target p g (w.sessions sid).username (at_tick n w))
  unfolding GroupLeave.remove_target ◌>>=◌ pure throw
  remove_refused n = earlier n w _ (
      read_role g _ _ (at_tick n w) (λ m.
        elim (Bool-cases (is_empty (role_in g (w.sessions sid).username w.db))) [
          | inl e ↦ rw e (earlier m (at_tick n w) _ (Rejected-here (at_tick m w) _ _ refl))
          | inr e ↦
              rw (e, kick)
                (earlier m (at_tick n w) _ (
                  read_role g p.body _ (at_tick m w) (λ l.
                    earlier l (at_tick m w) _ (guard_kick-Rejected _ _ _ (at_tick l w) refused))))
        ]))

  leave_refused : (n : ℕ) → Rejected w (GroupLeave.execute_leave p sid (at_tick n w))
  unfolding GroupLeave.execute_leave ◌>>=◌ pure throw gets
  leave_refused n = rw number (moved w _ _ (remove_refused n))

-- A GROUP_LEAVE that names a member to remove, of a user whose role does not allow it (only the
-- creator and administrators may, nobody may remove the creator, and only the creator an
-- administrator), throws an exception that the connection answers, and no table, client, session or
-- frame is touched, whatever fails.
pub kick-Rejected :
    (p : Packet) (sid : ℕ) (w : World) (g : ℤ)
    → stoi p.to ≡ some g
    → is_empty p.body ≡ false
    → may_kick (role_in g (w.sessions sid).username w.db) (role_in g p.body w.db) ≡ false
    → Rejected w (handle GroupLeave.handler p sid w)
unfolding GroupLeave.handler GroupLeave.validate
kick-Rejected p sid w g e k r =
    handle-Rejected _ _ p sid w (Guards-require _ _) (leave_refused p sid w g e k r)
