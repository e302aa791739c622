-- ===== src/Repo/Pending.antt =====
-- backend/src/PendingNotificationRepository.cpp: table pending_notifications.
pub mod Once
use bit_atm.Prelude.{
  suc, Bool, not, ◌&&◌, List, [], ◌∷◌, ◌++◌, select, Str, text, str_eq, pos, int_eq,
}
use bit_atm.Packet.{PacketType}
use bit_atm.Db.{PendingNotification, Db, order_by, delete_where}
use bit_atm.World.{World}
use bit_atm.Action.{
  Action, pure, gets, ◌>>=◌, ◌>>◌, in_repo, execute, set_db, session, statement, now,
}

abbrev pub insert : Str → PacketType → Str → Str → Str → Str → World → Db
insert recipient type from_user body error_msg packet_key w = record w.db {
  pending_notifications =
      w.db.pending_notifications
      ++ record {
        id = pos (suc w.db.serials.pending);
        recipient = recipient;
        packet_type = type;
        from_user = from_user;
        body = body;
        error_msg = error_msg;
        packet_key = packet_key;
        created_at = now w;
      }
        ∷ [];
  serials = record (w.db.serials) { pending = suc w.db.serials.pending };
}

unfoldable pub queue : Str → PacketType → Str → Str → Str → Str → Action (Unit {0})
queue recipient type from_user body error_msg packet_key =
    execute (text "PendingNotificationRepository::queue: ")
      (insert recipient type from_user body error_msg packet_key)

abbrev pub is_for : Str → PendingNotification → Bool
is_for recipient n = str_eq n.recipient recipient

abbrev pub rows_for : Str → Db → List PendingNotification
rows_for recipient d =
    order_by (λ n. n.created_at)
      (select (λ n. is_for recipient n && not (int_eq n.id (pos 0))) d.pending_notifications)

abbrev pub clear : Str → Db → Db
clear recipient d = record d {
  pending_notifications = delete_where (is_for recipient) d.pending_notifications;
}

unfoldable pub find_and_clear : Str → Action (List PendingNotification)
find_and_clear recipient = in_repo (text "PendingNotificationRepository::findAndClear: ") (do
  session
  statement
  rows ← gets (λ w. rows_for recipient w.db)
  statement
  set_db (λ w. clear recipient w.db)
  pure rows)
