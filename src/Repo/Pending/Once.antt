-- ===== src/Repo/Pending/Once.antt =====
-- PendingNotificationRepository::findAndClear and the rows of each recipient.
use bit_atm.Prelude.{
  suc, ◌≡◌, refl, ap, ◌∙◌, Bool, true, false, not, ◌&&◌, List, [], ◌∷◌, arith, if◌then◌else◌,
  select, Str, str_eq, str_eq_refl, str_eq→≡, pos, int_eq,
}
use bit_atm.World.{World}
use bit_atm.Db.{PendingNotification, order_by, delete_where}
use bit_atm.Action.{
  done, ◌>>=◌, pure, gets, try_catch, session, statement, next_tick, set_db, modify, throw,
}
use bit_atm.Action.Quiet.{IsQuiet}
use bit_atm.Repo.Pending.{find_and_clear, rows_for, is_for, clear}

at_none : (b : Bool) → ◌≡◌ {A = List PendingNotification} [] (if b then [] else [])
at_none true = refl
at_none false = refl

module _ (u v : Str) where
  left_over :
      (rows : List PendingNotification)
      → select (λ n. is_for v n && not (int_eq n.id (pos 0))) (delete_where (is_for u) rows)
        ≡ (if str_eq u v then [] else select (λ n. is_for v n && not (int_eq n.id (pos 0))) rows)
  left_over [] = at_none (str_eq u v)
  left_over (n ∷ rest) = ground (
    arith,
    left_over rest,
    str_eq→≡ n.recipient u,
    str_eq→≡ n.recipient v,
    str_eq→≡ u v,
    str_eq_refl u,
    str_eq_refl v,
  )

-- Where nothing fails, findAndClear returns the rows of the recipient in the order of time; after it
-- the recipient has none, and every other user has the rows it had.
pub find_and_clear_once :
    (u v : Str) (w : World)
    → IsQuiet w.env
    → (x : World) × (find_and_clear u w ≡ done (rows_for u w.db) x)
      × (rows_for v x.db ≡ (if str_eq u v then [] else rows_for v w.db))
unfolding find_and_clear session statement next_tick set_db modify ◌>>=◌ pure throw gets try_catch
    order_by
find_and_clear_once u v w q = (
  record w { tick = suc (suc (suc w.tick)); db = clear u w.db },
  rw (q.sessions w.tick, q.statements (suc w.tick), q.statements (suc (suc w.tick))),
  ap (λ l. order_by (λ n. n.created_at) l) (left_over u v w.db.pending_notifications)
      ∙ ordered (str_eq u v),
)
  where
    ordered :
        (b : Bool)
        → order_by
            (λ n. n.created_at)
            (if b
              then []
              else select (λ n. is_for v n && not (int_eq n.id (pos 0))) w.db.pending_notifications)
          ≡ (if b then [] else rows_for v w.db)
    ordered true = refl
    ordered false = refl
