-- ===== src/Server/Reject/Creators.antt =====
-- GroupInfoHandler and DeleteGroupHandler on packets of users who are not the creator of the group.
use bit_atm.Prelude.{
  ℕ, ◌≡◌, refl, sym, ◌∙◌, inl, inr, true, false, ◌||◌, some, Bool-cases, is_empty, text, str_eq, ℤ,
  stoi,
}
use bit_atm.Packet.{Packet}
use bit_atm.World.{World}
use bit_atm.Action.{pure, throw, gets, ◌>>=◌}
use bit_atm.Action.Leads.{Guards-require}
use bit_atm.Action.Runs.{at_tick}
use bit_atm.Repo.Groups.{role_in}
use bit_atm.Handler.Base.{handle}
use bit_atm.Handler.GroupInfo
use bit_atm.Handler.GroupInfo.{asks, grant_admin, revoke_admin}
use bit_atm.Handler.DeleteGroup
use bit_atm.Server.Reject.{Rejected}
use bit_atm.Server.Reject.Outsiders.{earlier, moved, refused_role, handle-Rejected}

module _ (p : Packet) (sid : ℕ) (w : World) (g : ℤ) (number : stoi p.to ≡ some g)
    (other : str_eq (role_in g (w.sessions sid).username w.db) (text "creator") ≡ false) where
  change_refused :
      (n : ℕ)
      → (asks "grant_admin" p || asks "revoke_admin" p) ≡ true
      → Rejected w (GroupInfo.execute_info p sid (at_tick n w))
  unfolding GroupInfo.execute_info grant_admin revoke_admin ◌>>=◌ pure throw gets
  change_refused n a = rw number (elim (Bool-cases (asks "grant_admin" p)) [
    | inl e ↦ rw e (
        moved w _ _ (
          earlier n w _ (
            refused_role g _ _ (text "GROUP_INFO: only the creator may grant admin status") _
              (at_tick n w) refl (λ m. rw other))))
    | inr e ↦ elim (Bool-cases (asks "revoke_admin" p)) [
      | inl f ↦
          rw (e, f)
            (moved w _ _ (
              earlier n w _ (
                refused_role g _ _ (text "GROUP_INFO: only the creator may revoke admin status") _
                  (at_tick n w) refl (λ m. rw other))))
      | inr f ↦ absurd (no_request (sym a ∙ rw (e, f)))
    ]
  ])
    where
      no_request : true ≡ false → ⊥
      no_request e = cc

  delete_refused : (n : ℕ) → Rejected w (DeleteGroup.execute_delete p sid (at_tick n w))
  unfolding DeleteGroup.execute_delete ◌>>=◌ pure throw gets
  delete_refused n =
      rw number (elim (Bool-cases (is_empty (role_in g (w.sessions sid).username w.db))) [
        | inl e ↦ earlier n w _ (
            refused_role g _ _ (text "DELETE_GROUP: actor is not a member of this group") _
              (at_tick n w) refl (λ m. rw e))
        | inr e ↦ earlier n w _ (
            refused_role g _ _ (text "DELETE_GROUP: only the creator may delete the group") _
              (at_tick n w) refl (λ m. rw (e, other)))
      ])

-- A GROUP_INFO that would grant or revoke administration in a group in which the role of the session's
-- user is not that of the creator throws an exception that the connection answers, and no table,
-- client, session or frame is touched, whatever fails.
pub role_change-Rejected :
    (p : Packet) (sid : ℕ) (w : World) (g : ℤ)
    → stoi p.to ≡ some g
    → str_eq (role_in g (w.sessions sid).username w.db) (text "creator") ≡ false
    → (asks "grant_admin" p || asks "revoke_admin" p) ≡ true
    → Rejected w (handle GroupInfo.handler p sid w)
unfolding GroupInfo.handler GroupInfo.validate
role_change-Rejected p sid w g e o a =
    handle-Rejected _ _ p sid w (Guards-require _ _) (λ n. change_refused p sid w g e o n a)

-- A DELETE_GROUP of a group in which the role of the session's user is not that of the creator
-- throws an exception that the connection answers, and no table, client, session or frame is
-- touched, whatever fails.
pub group_deletion-Rejected :
    (p : Packet) (sid : ℕ) (w : World) (g : ℤ)
    → stoi p.to ≡ some g
    → str_eq (role_in g (w.sessions sid).username w.db) (text "creator") ≡ false
    → Rejected w (handle DeleteGroup.handler p sid w)
unfolding DeleteGroup.handler DeleteGroup.validate
group_deletion-Rejected p sid w g e o =
    handle-Rejected _ _ p sid w (Guards-require _ _) (λ n. delete_refused p sid w g e o n)
