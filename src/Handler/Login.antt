-- ===== src/Handler/Login.antt =====
-- backend/src/LoginHandler.cpp.
pub mod Single
pub mod Attempts
use bit_atm.Prelude.{
  ℕ, zero, suc, Bool, true, false, not, ◌&&◌, Option, none, some, List, [], ◌∷◌, ◌==◌,
  if◌then◌else◌, select, Str, text, str_eq, ℤ, pos, negsuc, int_eq, to_string,
}
use bit_atm.Error.{Error, network}
use bit_atm.Packet.{message, ack, read_receipt, Packet, blank}
use bit_atm.Db.{
  Message, Session, OfflineMessage, ReadReceipt, PendingNotification, order_by, update_where,
}
use bit_atm.World.{World, Env, authenticated}
use bit_atm.Action.{
  Action, pure, gets, modify, ◌>>=◌, ◌>>◌, skip, require, or_throw, try_catch, in_repo, set_db,
  session, statement, for_each, send,
}
use bit_atm.Handler.Base.{Handler, present, send_quietly}
use bit_atm.Repo.Users
use bit_atm.Repo.Messages
use bit_atm.Repo.OfflineQueue
use bit_atm.Repo.Sessions
use bit_atm.Repo.Pending
use bit_atm.Handler.Password.{verify_password, login_token}
use bit_atm.Repo.Row.{present_rows}

unfoldable pub validate : Packet → Action (Unit {0})
validate p = do
  require (present p.from) (text "LOGIN: username (from) is required")
  require (present p.body) (text "LOGIN: password (body) is required")

-- setUsername, setSessionToken and setState(Authenticated).
unfoldable pub authenticate : ℕ → Str → Str → Action (Unit {0})
authenticate sid username token = modify (λ w. record w {
  sessions = λ n.
      if n == sid
      then record { state = authenticated; username = username; session_token = token }
      else w.sessions n;
})

unfoldable pub forward : Env → Str → Message → Packet
forward env to m = record (blank message) {
  from = m.sender;
  to = to;
  body = m.encrypted_body;
  key = m.encrypted_key;
  timestamp = env.timestamp_text m.created_at;
}

unfoldable pub send_stored : Str → ℕ → OfflineMessage → Option Message → Action (Unit {0})
unfolding forward
send_stored username sid entry none = skip
send_stored username sid entry (some m) = do
  env ← gets (λ w. w.env)
  send sid (forward env username m)
  OfflineQueue.mark_delivered entry.id

-- A dead socket ends the loop; any other exception only this entry.
unfoldable pub after_failure : Error → Action Bool
after_failure (network m) = pure false
after_failure _ = pure true

-- One round of the loop; the result says whether it goes on.
unfoldable pub flush_entry : Str → ℕ → OfflineMessage → Action Bool
unfolding send_stored after_failure
flush_entry username sid entry =
    try_catch
      (do
        OfflineQueue.increment_attempts entry.id
        m ← Messages.find_by_id entry.message_id
        send_stored username sid entry m
        pure true)
      after_failure

unfoldable pub flush_entries : Str → ℕ → List OfflineMessage → Action (Unit {0})
flush_entries username sid [] = skip
flush_entries username sid (entry ∷ rest) = do
  go ← flush_entry username sid entry
  if go then flush_entries username sid rest else skip

abbrev pub group_number : Option ℤ → ℤ
group_number none = pos 0
group_number (some g) = g

-- groupIds[i] > 0 ? std::to_string(groupIds[i]) : username
abbrev pub receipt_target : Str → ℤ → Str
receipt_target username (pos zero) = username
receipt_target username (pos (suc n)) = to_string (pos (suc n))
receipt_target username (negsuc n) = username

receipt_packet : Str → ReadReceipt → Packet
receipt_packet username r =
    let out = record (blank (if str_eq r.kind (text "delivered") then ack else read_receipt)) {
      from = r.from_user;
      to = receipt_target username (group_number r.group_id);
      body = r.message_ts;
    } in
    if str_eq r.kind (text "delivered") then record out { error_msg = text "delivered" } else out

abbrev pub undelivered_receipts : Str → World → List ReadReceipt
undelivered_receipts username w =
    present_rows (λ r. r.from_user)
      (order_by (λ r. r.queued_at)
        (select (λ r. str_eq r.to_user username && not r.delivered) w.db.offline_read_receipts))

unfoldable pub send_receipt : Str → ℕ → ReadReceipt → Action (Unit {0})
unfolding receipt_packet
send_receipt username sid r = do
  send sid (receipt_packet username r)
  statement
  set_db (λ w. record w.db {
    offline_read_receipts =
        update_where (λ s. int_eq s.id r.id) (λ s. record s { delivered = true })
          w.db.offline_read_receipts;
  })

unfoldable pub flush_offline_read_receipts : Str → ℕ → Action (Unit {0})
unfolding send_receipt
flush_offline_read_receipts username sid =
    in_repo (text "LoginHandler::flushOfflineReadReceipts: ") (do
      session
      statement
      rows ← gets (undelivered_receipts username)
      for_each (send_receipt username sid) rows)

notification_packet : Str → PendingNotification → Packet
notification_packet username n = record (blank n.packet_type) {
  from = n.from_user;
  to = username;
  body = n.body;
  error_msg = n.error_msg;
  key = n.packet_key;
}

unfoldable pub flush_pending_notifications : Str → ℕ → Action (Unit {0})
unfolding notification_packet
flush_pending_notifications username sid = do
  rows ← Pending.find_and_clear username
  for_each (λ n. send_quietly sid (notification_packet username n)) rows

-- updateLastSeen, whose failure is not fatal.
abbrev pub touch : Str → Action (Unit {0})
touch username = try_catch (Users.update_last_seen username) (λ e. skip)

abbrev pub new_session : ℤ → Str → Session
new_session user_id token = record {
  id = pos 0;
  user_id = user_id;
  session_token = token;
  created_at = 0;
  expires_at = 0;
  is_active = true;
}

-- From a verified password to the authenticated session.
unfoldable pub open_session : Str → ℤ → ℕ → Action Str
unfolding authenticate
open_session username user_id sid = do
  token ← login_token
  Sessions.deactivate_all_for_user user_id
  Sessions.save (new_session user_id token)
  authenticate sid username token
  pure token

unfoldable pub execute_login : Packet → ℕ → Action (Unit {0})
execute_login p sid = do
  found ← Users.find_by_username p.from
  user ← or_throw found (text "LOGIN: invalid credentials")
  good ← verify_password p.body user.password_hash
  require good (text "LOGIN: invalid credentials")
  token ← open_session p.from user.id sid
  touch p.from
  send sid (record (blank ack) { to = p.from; body = token })
  pending ← OfflineQueue.find_undelivered_by_recipient p.from
  flush_entries p.from sid pending
  flush_offline_read_receipts p.from sid
  flush_pending_notifications p.from sid

unfoldable pub handler : Handler
unfolding validate execute_login
handler = record { validate = validate; authorize = λ sid. skip; execute = execute_login }
