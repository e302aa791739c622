-- ===== src/Handler/Message.antt =====
-- backend/src/MessageHandler.cpp.
pub mod Key
use bit_atm.Prelude.{
  ℕ, false, Option, none, some, [], ◌==◌, if◌then◌else◌, last?, Str, text, split_at, ℤ, pos,
}
use bit_atm.Packet.{ack, Packet, blank}
use bit_atm.Db.{Message, OfflineMessage}
use bit_atm.Action.{Action, ◌>>=◌, ◌>>◌, skip, require, for_each, send}
use bit_atm.Handler.Base.{Handler, base_authorize, present, find_client, sessions_for, send_quietly}
use bit_atm.Repo.Messages
use bit_atm.Repo.OfflineQueue

unfoldable pub validate : Packet → Action (Unit {0})
validate p = do
  require (present p.from) (text "MESSAGE: sender (from) is required")
  require (present p.to) (text "MESSAGE: recipient (to) is required")
  require (present p.body) (text "MESSAGE: encrypted body is required")
  require (present p.key) (text "MESSAGE: encrypted key is required")

-- "recipientKey;senderKey" or a plain "recipientKey".
abbrev pub keys_at : Str → Option (Str × Str) → Str × Str
keys_at key none = (key, [])
keys_at key (some ks) = ks

unfoldable pub split_key : Str → Str × Str
split_key key = keys_at key (split_at b';' key)

abbrev pub stored_message : Packet → Message
stored_message p = record {
  id = pos 0;
  sender = p.from;
  recipient = p.to;
  encrypted_body = p.body;
  encrypted_key = (split_key p.key).0;
  sender_encrypted_key = (split_key p.key).1;
  status = text "sent";
  created_at = 0;
}

abbrev pub queue_entry : ℤ → Str → OfflineMessage
queue_entry message_id recipient = record {
  id = pos 0;
  message_id = message_id;
  recipient = recipient;
  queued_at = 0;
  delivered = false;
  delivery_attempts = 0;
}

unfoldable pub queue_last : Str → Option Message → Action (Unit {0})
queue_last to none = skip
queue_last to (some m) = OfflineQueue.save (queue_entry m.id to)

-- To the recipient, or into the offline queue.
unfoldable pub route : Packet → Option ℕ → Action (Unit {0})
unfolding queue_last
route p (some sid) = send sid (record p { key = (split_key p.key).0 })
route p none = do saved ← Messages.find_by_recipient p.to; queue_last p.to (last? saved)

-- To the sender's other sessions, with the mark of an outgoing copy.
unfoldable pub echo : Packet → ℕ → ℕ → Action (Unit {0})
echo p sid sibling =
    if sibling == sid then skip else send_quietly sibling (record p { error_msg = text "1" })

unfoldable pub execute_message : Packet → ℕ → Action (Unit {0})
unfolding route
execute_message p sid = do
  Messages.save_new (stored_message p) p.timestamp
  recipient ← find_client p.to
  route p recipient
  siblings ← sessions_for p.from
  for_each (echo p sid) siblings
  send sid (record (blank ack) { to = p.from; timestamp = p.timestamp })

unfoldable pub handler : Handler
unfolding validate execute_message
handler = record { validate = validate; authorize = base_authorize; execute = execute_message }
