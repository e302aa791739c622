-- ===== src/Handler/GroupMessage.antt =====
-- backend/src/GroupMessageHandler.cpp.
use bit_atm.Prelude.{
  ℕ, Option, none, some, List, [], ◌∷◌, ◌++◌, if◌then◌else◌, is_empty, Str, text, str_eq, stoi,
}
use bit_atm.Packet.{ack, Packet, blank}
use bit_atm.Db.{GroupMember}
use bit_atm.Action.{Action, ◌>>=◌, ◌>>◌, skip, require, or_throw, for_each, send}
use bit_atm.Handler.Base.{Handler, base_authorize, present, username_of, find_client, send_quietly}
use bit_atm.Repo.Groups
use bit_atm.Repo.Receipts

unfoldable pub validate : Packet → Action (Unit {0})
validate p = do
  require (present p.from) (text "GROUP_MESSAGE: sender (from) is required")
  require (present p.to) (text "GROUP_MESSAGE: group_id (to) is required")
  require (present p.body) (text "GROUP_MESSAGE: encrypted body is required")

-- The members other than the sender.
unfoldable pub recipients : Str → List GroupMember → List Str
recipients sender [] = []
recipients sender (m ∷ ms) =
    if str_eq m.username sender then recipients sender ms else m.username ∷ recipients sender ms

unfoldable pub deliver_to : Packet → Option ℕ → Action (Unit {0})
deliver_to p none = skip
deliver_to p (some peer) = send_quietly peer p

unfoldable pub fan_out : Packet → Str → GroupMember → Action (Unit {0})
unfolding deliver_to
fan_out p sender m =
    if str_eq m.username sender then skip else do peer ← find_client m.username; deliver_to p peer

-- joined, with ";" before each but the first.
abbrev pub join_onto : Str → List Str → Str
join_onto acc [] = acc
join_onto acc (r ∷ rs) = join_onto (acc ++ (if is_empty acc then r else b';' ∷ r)) rs

unfoldable pub execute_group_message : Packet → ℕ → Action (Unit {0})
unfolding fan_out
execute_group_message p sid = do
  group_id ← or_throw (stoi p.to) (text "GROUP_MESSAGE: invalid group_id in 'to'")
  sender ← username_of sid
  role ← Groups.get_member_role group_id sender
  require (present role) (text "GROUP_MESSAGE: sender is not a member of group " ++ p.to)
  message_id ← Groups.save_message group_id p.from p.body p.timestamp
  members ← Groups.get_members group_id
  Receipts.insert_receipt_rows message_id (recipients sender members)
  for_each (fan_out p sender) members
  send sid (record (blank ack) {
    to = p.from;
    timestamp = p.timestamp;
    error_msg = p.to;
    key = join_onto [] (recipients sender members);
  })

unfoldable pub handler : Handler
unfolding validate execute_group_message
handler = record {
  validate = validate;
  authorize = base_authorize;
  execute = execute_group_message;
}
