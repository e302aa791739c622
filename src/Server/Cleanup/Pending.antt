-- ===== src/Server/Cleanup/Pending.antt =====
-- Server::onCleanupTimer on the entries of the offline queue that are yet to be delivered.
use bit_atm.Prelude.{
  ℕ, ◌≡◌, refl, ◌∙◌, inl, inr, Bool, true, false, List, [], ◌∷◌, arith, Bool-cases, select, Str,
}
use bit_atm.World.{World}
use bit_atm.Db.{Db, OfflineMessage, delete_where}
use bit_atm.Action.{after}
use bit_atm.Action.Keeps.{Keeps, keeps_rules, Keeps-execute}
use bit_atm.Repo.Sessions
use bit_atm.Repo.OfflineQueue
use bit_atm.Repo.OfflineQueue.{is_pending, is_stale, is_exhausted, max_delivery_attempts}
use bit_atm.Server.Cleanup.{on_cleanup_timer}

select-delete :
    (p q : OfflineMessage → Bool) (rows : List OfflineMessage)
    → ((m : OfflineMessage) → q m ≡ true → p m ≡ false)
    → select p (delete_where q rows) ≡ select p rows
select-delete p q [] h = refl
select-delete p q (m ∷ rest) h = elim (Bool-cases (q m)) [
  | inl e ↦ rw (e, h m e) (select-delete p q rest h)
  | inr e ↦ elim (Bool-cases (p m)) [
    | inl f ↦ rw (e, f, select-delete p q rest h)
    | inr f ↦ rw (e, f) (select-delete p q rest h)
  ]
]

stale_done : (u : Str) (t : ℕ) (m : OfflineMessage) → is_stale t m ≡ true → is_pending u m ≡ false
stale_done u t m h = ground arith

exhausted_done : (u : Str) (m : OfflineMessage) → is_exhausted m ≡ true → is_pending u m ≡ false
exhausted_done u m h = ground arith

abbrev HasPending : Str → List OfflineMessage → Db → Type 0
HasPending u rows d = select (is_pending u) d.offline_queue ≡ rows

cleanup_delivered-HasPending :
    (u : Str) (rows : List OfflineMessage)
    → Keeps (HasPending u rows) OfflineQueue.cleanup_delivered
unfolding OfflineQueue.cleanup_delivered
cleanup_delivered-HasPending u rows =
    Keeps-execute _ _ (λ w h. select-delete _ _ w.db.offline_queue (stale_done u _) ∙ h)

cleanup_exhausted-HasPending :
    (u : Str) (rows : List OfflineMessage)
    → Keeps (HasPending u rows) OfflineQueue.cleanup_exhausted
unfolding OfflineQueue.cleanup_exhausted
cleanup_exhausted-HasPending u rows =
    Keeps-execute _ _ (λ w h. select-delete _ _ w.db.offline_queue (exhausted_done u) ∙ h)

-- Whatever fails, the cleanup timer leaves the undelivered entries of a user that have tries left, in
-- their order.
pub is_pending-on_cleanup_timer :
    (u : Str) (w : World)
    → select (is_pending u) (after (on_cleanup_timer w)).db.offline_queue
      ≡ select (is_pending u) w.db.offline_queue
unfolding on_cleanup_timer Sessions.deactivate_expired
is_pending-on_cleanup_timer u w = kept.at w refl
  where
    kept : Keeps (HasPending u (select (is_pending u) w.db.offline_queue)) on_cleanup_timer
    kept =
        search
          (keeps_rules, cleanup_delivered-HasPending, cleanup_exhausted-HasPending, Keeps-execute)
          depth 20
