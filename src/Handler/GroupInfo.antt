-- ===== src/Handler/GroupInfo.antt =====
-- backend/src/GroupInfoHandler.cpp.
pub mod Roles
use bit_atm.Prelude.{
  ℕ, String, Bool, ◌||◌, Option, none, some, List, [], ◌∷◌, ◌++◌, if◌then◌else◌, is_empty, Str,
  text, str_eq, ℤ, stoi,
}
use bit_atm.Packet.{group_info, Packet, blank}
use bit_atm.Db.{GroupMember}
use bit_atm.Action.{Action, ◌>>=◌, ◌>>◌, skip, when, require, or_throw, for_each, send}
use bit_atm.Handler.Base.{Handler, base_authorize, present, username_of, find_client, send_quietly}
use bit_atm.Repo.Groups

unfoldable pub validate : Packet → Action (Unit {0})
validate p = require (present p.to) (text "GROUP_INFO: group_id (to) is required")

abbrev pub asks : String → Packet → Bool
asks command p = str_eq p.body (text command)

unfoldable pub grant_admin : Packet → ℤ → Str → Action (Unit {0})
grant_admin p group_id requester = do
  role ← Groups.get_member_role group_id requester
  require (str_eq role (text "creator"))
      (text "GROUP_INFO: only the creator may grant admin status")
  require (present p.key) (text "GROUP_INFO: target username (key) is required for grant_admin")
  Groups.update_role group_id p.key (text "admin")

unfoldable pub revoke_admin : Packet → ℤ → Str → Action (Unit {0})
revoke_admin p group_id requester = do
  role ← Groups.get_member_role group_id requester
  require (str_eq role (text "creator"))
      (text "GROUP_INFO: only the creator may revoke admin status")
  require (present p.key) (text "GROUP_INFO: target username (key) is required for revoke_admin")
  target ← Groups.get_member_role group_id p.key
  require (str_eq target (text "admin")) (text "GROUP_INFO: target is not an admin")
  Groups.update_role group_id p.key (text "member")

-- "user:role" entries with ";" before each but the first.
abbrev pub list_members : Str → List GroupMember → Str
list_members acc [] = acc
list_members acc (m ∷ ms) =
    list_members ((if is_empty acc then acc else acc ++ b';' ∷ []) ++ m.username ++ b':' ∷ m.role)
      ms

unfoldable pub show_to : Packet → Str → Option ℕ → Action (Unit {0})
show_to resp username none = skip
show_to resp username (some peer) = send_quietly peer (record resp { to = username })

unfoldable pub fan_out : Packet → Str → GroupMember → Action (Unit {0})
unfolding show_to
fan_out resp requester m =
    if str_eq m.username requester
    then skip
    else do peer ← find_client m.username; show_to resp m.username peer

unfoldable pub execute_info : Packet → ℕ → Action (Unit {0})
unfolding fan_out
execute_info p sid = do
  group_id ← or_throw (stoi p.to) (text "GROUP_INFO: invalid group_id in 'to'")
  requester ← username_of sid
  when (asks "grant_admin" p) (grant_admin p group_id requester)
  when (asks "revoke_admin" p) (revoke_admin p group_id requester)
  found ← Groups.find_group_by_id group_id
  group ← or_throw found (text "GROUP_INFO: group not found: " ++ p.to)
  members ← Groups.get_members group_id
  let resp = record (blank group_info) {
    from = requester;
    to = requester;
    body = p.to;
    error_msg = group.name;
    key = list_members [] members;
  }
  send sid resp
  when (asks "grant_admin" p || asks "revoke_admin" p) (for_each (fan_out resp requester) members)

unfoldable pub handler : Handler
unfolding validate execute_info
handler = record { validate = validate; authorize = base_authorize; execute = execute_info }
