-- ===== src/Handler/ReadReceipt.antt =====
-- backend/src/ReadReceiptHandler.cpp.
use bit_atm.Prelude.{ℕ, Option, none, some, ◌++◌, ◌==◌, if◌then◌else◌, Str, text, str_eq, ℤ}
use bit_atm.Packet.{Packet}
use bit_atm.Db.{GroupMember}
use bit_atm.Action.{Action, ◌>>=◌, ◌>>◌, skip, require, for_each, send}
use bit_atm.Handler.Base.{
  Handler, base_authorize, present, is_numeric, stoi_or_throw, username_of, find_client,
  sessions_for, send_quietly,
}
use bit_atm.Repo.Groups
use bit_atm.Repo.Receipts

unfoldable pub validate : Packet → Action (Unit {0})
validate p = do
  require (present p.from) (text "READ_RECEIPT: sender (from) is required")
  require (present p.to) (text "READ_RECEIPT: recipient (to) is required")
  require (present p.body) (text "READ_RECEIPT: message timestamp (body) is required")

unfoldable pub tell : Packet → ℤ → Str → Option ℕ → Action (Unit {0})
tell p group_id member (some peer) = send_quietly peer p
tell p group_id member none =
    Receipts.queue_receipt (text "ReadReceiptHandler: group queue failed: ") p.from member p.body
      (some group_id) (text "seen")

unfoldable pub tell_member : Packet → ℤ → GroupMember → Action (Unit {0})
unfolding tell
tell_member p group_id m =
    if str_eq m.username p.from
    then skip
    else do peer ← find_client m.username; tell p group_id m.username peer

unfoldable pub execute_group : Packet → Action (Unit {0})
unfolding tell_member
execute_group p = do
  group_id ← stoi_or_throw p.to
  role ← Groups.get_member_role group_id p.from
  require (present role) (text "READ_RECEIPT: reader is not a member of group " ++ p.to)
  _ ← Receipts.mark_receipt_seen group_id p.body p.from
  members ← Groups.get_members group_id
  for_each (tell_member p group_id) members

-- A failed send to the original sender is not caught.
unfoldable pub deliver : Packet → Option ℕ → Action (Unit {0})
deliver p (some sender) = send sender p
deliver p none =
    Receipts.queue_receipt (text "ReadReceiptHandler: queue failed: ") p.from p.to p.body none
      (text "seen")

unfoldable pub execute_direct : Packet → ℕ → Action (Unit {0})
unfolding deliver
execute_direct p sid = do
  sender ← find_client p.to
  deliver p sender
  siblings ← sessions_for p.from
  for_each (λ s. if s == sid then skip else send_quietly s p) siblings

unfoldable pub execute_receipt : Packet → ℕ → Action (Unit {0})
unfolding execute_group execute_direct
execute_receipt p sid = do
  username ← username_of sid
  require (str_eq p.from username) (text "READ_RECEIPT: sender mismatch with authenticated session")
  if is_numeric p.to then execute_group p else execute_direct p sid

unfoldable pub handler : Handler
unfolding validate execute_receipt
handler = record { validate = validate; authorize = base_authorize; execute = execute_receipt }
