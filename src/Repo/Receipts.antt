-- ===== src/Repo/Receipts.antt =====
-- GroupRepository's receipt methods on group_message_receipts, and the queue of receipts
-- offline_read_receipts, which AckHandler, ReadReceiptHandler and LoginHandler write to directly.
pub mod Queue
use bit_atm.Prelude.{
  ℕ, suc, Bool, false, not, ◌&&◌, Option, none, some, List, [], ◌∷◌, ◌++◌, map, if◌then◌else◌,
  is_empty, select, any, Str, text, str_eq, ℤ, pos, int_eq,
}
use bit_atm.Db.{GroupMessage, GroupReceipt, ReadReceipt, Db, update_where, delete_where}
use bit_atm.World.{World, Env}
use bit_atm.Action.{Action, gets, ◌>>◌, in_repo, execute, set_db, session, statement, now, for_each}

-- INSERT ... ON CONFLICT DO NOTHING on the primary key (message_id, username).
abbrev pub insert_receipt : ℤ → Str → Db → Db
insert_receipt message_id username d = record d {
  group_message_receipts =
      if any (λ r. int_eq r.message_id message_id && str_eq r.username username)
        d.group_message_receipts
      then d.group_message_receipts
      else d.group_message_receipts
        ++ record {
          message_id = message_id;
          username = username;
          delivered_at = none;
          seen_at = none;
        }
          ∷ [];
}

unfoldable pub insert_receipt_rows : ℤ → List Str → Action (Unit {0})
insert_receipt_rows message_id usernames = in_repo (text "GroupRepository::insertReceiptRows: ") (do
  session
  for_each (λ u. do statement; set_db (λ w. insert_receipt message_id u w.db)) usernames)

-- COALESCE(x, NOW())
abbrev pub coalesce : Option ℕ → ℕ → Option ℕ
coalesce none t = some t
coalesce (some s) t = some s

abbrev pub mark_delivered_at : ℕ → GroupReceipt → GroupReceipt
mark_delivered_at t r = record r { delivered_at = coalesce r.delivered_at t }

abbrev pub mark_seen_at : ℕ → GroupReceipt → GroupReceipt
mark_seen_at t r = record r {
  seen_at = coalesce r.seen_at t;
  delivered_at = coalesce r.delivered_at t;
}

-- gm.group_id = $1 AND to_char(gm.timestamp ...) = $2
abbrev pub at_time : Env → ℤ → Str → GroupMessage → Bool
at_time env group_id ts g = int_eq g.group_id group_id && str_eq (env.timestamp_iso g.timestamp) ts

abbrev pub mark_rows : (ℕ → GroupReceipt → GroupReceipt) → ℤ → Str → Str → World → Db
mark_rows f group_id ts username w = record w.db {
  group_message_receipts =
      update_where
        (λ r.
          str_eq r.username username
          && any (λ g. at_time w.env group_id ts g && int_eq g.id r.message_id) w.db.group_messages)
        (f (now w)) w.db.group_message_receipts;
}

-- SELECT DISTINCT; the order among the rows is that of their first occurrence.
unfoldable pub distinct : List Str → List Str → List Str
distinct seen [] = []
distinct seen (s ∷ rest) =
    let more = distinct (s ∷ seen) rest in
    let fewer = distinct seen rest in if any (str_eq s) seen then fewer else s ∷ more

abbrev senders_at : ℤ → Str → World → List Str
senders_at group_id ts w =
    present_rows_str
      (distinct [] (map (λ g. g.sender) (select (at_time w.env group_id ts) w.db.group_messages)))
  where
    present_rows_str : List Str → List Str
    present_rows_str rows = select (λ s. not (is_empty s)) rows

unfoldable pub mark_receipt :
    (ℕ → GroupReceipt → GroupReceipt) → Str → ℤ → Str → Str → Action (List Str)
mark_receipt f context group_id ts username = in_repo context (do
  session
  statement
  set_db (mark_rows f group_id ts username)
  statement
  gets (senders_at group_id ts))

unfoldable pub mark_receipt_delivered : ℤ → Str → Str → Action (List Str)
unfolding mark_receipt
mark_receipt_delivered =
    mark_receipt mark_delivered_at (text "GroupRepository::markReceiptDelivered: ")

unfoldable pub mark_receipt_seen : ℤ → Str → Str → Action (List Str)
unfolding mark_receipt
mark_receipt_seen = mark_receipt mark_seen_at (text "GroupRepository::markReceiptSeen: ")

abbrev drop_receipts : ℤ → Str → Db → Db
drop_receipts group_id username d = record d {
  group_message_receipts =
      delete_where
        (λ r.
          any (λ g. int_eq g.id r.message_id && int_eq g.group_id group_id) d.group_messages
          && str_eq r.username username)
        d.group_message_receipts;
}

unfoldable pub delete_receipts_for_member : ℤ → Str → Action (Unit {0})
delete_receipts_for_member group_id username =
    execute (text "GroupRepository::deleteReceiptsForMember: ")
      (λ w. drop_receipts group_id username w.db)

-- The unique index on (from_user, to_user, message_ts) of migration 008.
abbrev pub same_receipt : Str → Str → Str → ReadReceipt → Bool
same_receipt from_user to_user ts r =
    str_eq r.from_user from_user && str_eq r.to_user to_user && str_eq r.message_ts ts

-- INSERT INTO offline_read_receipts ... ON CONFLICT DO NOTHING.
abbrev pub insert_read_receipt : Str → Str → Str → Option ℤ → Str → World → Db
insert_read_receipt from_user to_user ts group_id kind w =
    if any (same_receipt from_user to_user ts) w.db.offline_read_receipts
    then w.db
    else record w.db {
      offline_read_receipts =
          w.db.offline_read_receipts
          ++ record {
            id = pos (suc w.db.serials.read_receipts);
            from_user = from_user;
            to_user = to_user;
            message_ts = ts;
            group_id = group_id;
            kind = kind;
            queued_at = now w;
            delivered = false;
          }
            ∷ [];
      serials = record (w.db.serials) { read_receipts = suc w.db.serials.read_receipts };
    }

-- The handlers' try blocks around that statement; `kind` defaults to 'seen'.
unfoldable pub queue_receipt : Str → Str → Str → Str → Option ℤ → Str → Action (Unit {0})
queue_receipt context from_user to_user ts group_id kind =
    execute context (insert_read_receipt from_user to_user ts group_id kind)
