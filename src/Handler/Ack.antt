-- ===== src/Handler/Ack.antt =====
-- backend/src/AckHandler.cpp.
use bit_atm.Prelude.{
  ℕ, Bool, not, ◌&&◌, Option, none, some, ◌++◌, if◌then◌else◌, select, head?, every, Str, text,
  str_eq, is_digit, ℤ, int_eq,
}
use bit_atm.Packet.{ack, Packet, blank}
use bit_atm.Db.{Message, OfflineMessage}
use bit_atm.Action.{Action, ◌>>=◌, ◌>>◌, skip, require, for_each}
use bit_atm.Handler.Base.{
  Handler, base_authorize, present, is_numeric, stoi_or_throw, username_of, find_client,
  send_quietly,
}
use bit_atm.Repo.Messages
use bit_atm.Repo.OfflineQueue
use bit_atm.Repo.Groups
use bit_atm.Repo.Receipts

abbrev pub is_delivered_receipt : Packet → Bool
is_delivered_receipt p = str_eq p.error_msg (text "delivered")

unfoldable pub validate : Packet → Action (Unit {0})
validate p =
    if is_delivered_receipt p
    then (do
      require (is_numeric p.to) (text "ACK: delivered receipt needs numeric group id in 'to'")
      require (present p.body) (text "ACK: delivered receipt needs message timestamp in body"))
    else (do
      require (present p.body) (text "ACK: message id (body) is required")
      require (every is_digit p.body) (text "ACK: message id must be a positive integer"))

unfoldable pub mark_message : Option Message → Action (Unit {0})
mark_message none = skip
mark_message (some m) = Messages.save (record m { status = text "delivered" })

-- The first undelivered entry of the message, then break.
unfoldable pub mark_first : Option OfflineMessage → Action (Unit {0})
mark_first none = skip
mark_first (some q) = OfflineQueue.mark_delivered q.id

unfoldable pub acknowledge : ℤ → Action (Unit {0})
unfolding mark_message mark_first
acknowledge message_id = do
  m ← Messages.find_by_id message_id
  mark_message m
  entries ← OfflineQueue.find_all
  mark_first (head? (select (λ q. int_eq q.message_id message_id && not q.delivered) entries))

-- To the sender if online, and else into the queue of receipts.
unfoldable pub tell : Packet → Str → ℤ → Packet → Str → Option ℕ → Action (Unit {0})
tell p member group_id fwd sender (some peer) = send_quietly peer fwd
tell p member group_id fwd sender none =
    Receipts.queue_receipt (text "AckHandler: delivered queue failed: ") member sender p.body
      (some group_id) (text "delivered")

unfoldable pub tell_sender : Packet → Str → ℤ → Packet → Str → Action (Unit {0})
unfolding tell
tell_sender p member group_id fwd sender =
    if str_eq sender member
    then skip
    else do peer ← find_client sender; tell p member group_id fwd sender peer

unfoldable pub execute_group_delivered : Packet → ℕ → Action (Unit {0})
unfolding tell_sender
execute_group_delivered p sid = do
  group_id ← stoi_or_throw p.to
  member ← username_of sid
  role ← Groups.get_member_role group_id member
  require (present role) (text "ACK: acker is not a member of group " ++ p.to)
  senders ← Receipts.mark_receipt_delivered group_id p.body member
  for_each
      (tell_sender p member group_id (record (blank ack) {
        from = member;
        to = p.to;
        body = p.body;
        error_msg = text "delivered";
      }))
      senders

unfoldable pub execute_ack : Packet → ℕ → Action (Unit {0})
execute_ack p sid =
    if is_delivered_receipt p
    then execute_group_delivered p sid
    else do message_id ← stoi_or_throw p.body; acknowledge message_id

unfoldable pub handler : Handler
unfolding validate execute_ack
handler = record { validate = validate; authorize = base_authorize; execute = execute_ack }
