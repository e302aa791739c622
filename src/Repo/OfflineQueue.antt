-- ===== src/Repo/OfflineQueue.antt =====
-- backend/src/OfflineQueueRepository.cpp: table offline_queue.
use bit_atm.Prelude.{
  ℕ, suc, ◌+◌, Bool, true, false, not, ◌&&◌, Option, List, [], ◌∷◌, ◌++◌, ltb, leb, if◌then◌else◌,
  select, head?, Str, text, str_eq, ℤ, pos, int_eq,
}
use bit_atm.Db.{OfflineMessage, Db, order_by, update_where, delete_where}
use bit_atm.World.{World}
use bit_atm.Action.{Action, query, execute, now}
use bit_atm.Repo.Row.{present, present_rows}

abbrev pub max_delivery_attempts : ℕ
max_delivery_attempts = 5

-- INTERVAL '7 days'.
abbrev pub seven_days : ℕ
seven_days = 604800000000

abbrev recipient_of : OfflineMessage → Str
recipient_of q = q.recipient

unfoldable pub find_by_id : ℤ → Action (Option OfflineMessage)
find_by_id id =
    query (text "OfflineQueueRepository::findById: ")
      (λ w. present recipient_of (head? (select (λ q. int_eq q.id id) w.db.offline_queue)))

unfoldable pub find_all : Action (List OfflineMessage)
find_all =
    query (text "OfflineQueueRepository::findAll: ")
      (λ w. present_rows recipient_of w.db.offline_queue)

abbrev pub insert : ℤ → Str → World → Db
insert message_id recipient w = record w.db {
  offline_queue =
      w.db.offline_queue
      ++ record {
        id = pos (suc w.db.serials.offline_queue);
        message_id = message_id;
        recipient = recipient;
        queued_at = now w;
        delivered = false;
        delivery_attempts = 0;
      }
        ∷ [];
  serials = record (w.db.serials) { offline_queue = suc w.db.serials.offline_queue };
}

unfoldable pub save : OfflineMessage → Action (Unit {0})
save q = execute (text "OfflineQueueRepository::save: ") (λ w.
    if int_eq q.id (pos 0) then insert q.message_id q.recipient w else record w.db {
      offline_queue =
          update_where (λ r. int_eq r.id q.id)
            (λ r. record r { delivered = q.delivered; delivery_attempts = q.delivery_attempts })
            w.db.offline_queue;
    })

-- Undelivered entries of a recipient with tries left.
abbrev pub is_pending : Str → OfflineMessage → Bool
is_pending recipient q =
    str_eq q.recipient recipient && not q.delivered && ltb q.delivery_attempts max_delivery_attempts

unfoldable pub find_undelivered_by_recipient : Str → Action (List OfflineMessage)
find_undelivered_by_recipient recipient =
    query (text "OfflineQueueRepository::findUndeliveredByRecipient: ") (λ w.
      present_rows recipient_of
        (order_by (λ q. q.queued_at) (select (is_pending recipient) w.db.offline_queue)))

abbrev pub deliver : OfflineMessage → OfflineMessage
deliver q = record q { delivered = true }

abbrev pub count_attempt : OfflineMessage → OfflineMessage
count_attempt q = record q { delivery_attempts = q.delivery_attempts + 1 }

-- UPDATE offline_queue SET ... WHERE id.
abbrev pub update : ℤ → (OfflineMessage → OfflineMessage) → Db → Db
update id f d = record d { offline_queue = update_where (λ q. int_eq q.id id) f d.offline_queue }

unfoldable pub mark_delivered : ℤ → Action (Unit {0})
mark_delivered id =
    execute (text "OfflineQueueRepository::markDelivered: ") (λ w. update id deliver w.db)

unfoldable pub increment_attempts : ℤ → Action (Unit {0})
increment_attempts id =
    execute (text "OfflineQueueRepository::incrementAttempts: ") (λ w. update id count_attempt w.db)

-- delivered = TRUE AND queued_at < NOW() - INTERVAL '7 days'
abbrev pub is_stale : ℕ → OfflineMessage → Bool
is_stale time q = q.delivered && ltb (q.queued_at + seven_days) time

abbrev pub is_exhausted : OfflineMessage → Bool
is_exhausted q = not q.delivered && leb max_delivery_attempts q.delivery_attempts

unfoldable pub cleanup_delivered : Action (Unit {0})
cleanup_delivered =
    execute (text "OfflineQueueRepository::cleanupDelivered: ")
      (λ w. record w.db { offline_queue = delete_where (is_stale (now w)) w.db.offline_queue })

unfoldable pub cleanup_exhausted : Action (Unit {0})
cleanup_exhausted =
    execute (text "OfflineQueueRepository::cleanupExhausted: ")
      (λ w. record w.db { offline_queue = delete_where is_exhausted w.db.offline_queue })
