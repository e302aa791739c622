-- ===== src/Handler/DeleteGroup.antt =====
-- backend/src/DeleteGroupHandler.cpp.
use bit_atm.Prelude.{ℕ, Option, none, some, [], Str, text, str_eq, stoi}
use bit_atm.Packet.{group_leave, Packet, blank}
use bit_atm.Db.{GroupMember}
use bit_atm.Action.{
  Action, ◌>>=◌, ◌>>◌, require, or_throw, catch_network, set_db, session, statement, for_each, send,
}
use bit_atm.Handler.Base.{Handler, base_authorize, present, username_of, find_client}
use bit_atm.Repo.Groups
use bit_atm.Repo.Pending

unfoldable pub validate : Packet → Action (Unit {0})
validate p = require (present p.to) (text "DELETE_GROUP: group_id (to) is required")

unfoldable pub tell : Packet → Str → Str → Option ℕ → Action (Unit {0})
tell p actor m none = Pending.queue m group_leave actor p.to [] []
tell p actor m (some peer) =
    catch_network (send peer (record (blank group_leave) { to = m; body = p.to }))
      (Pending.queue m group_leave actor p.to [] [])

unfoldable pub notify : Packet → Str → GroupMember → Action (Unit {0})
unfolding tell
notify p actor m = do peer ← find_client m.username; tell p actor m.username peer

unfoldable pub execute_delete : Packet → ℕ → Action (Unit {0})
unfolding notify
execute_delete p sid = do
  group_id ← or_throw (stoi p.to) (text "DELETE_GROUP: invalid group_id in 'to'")
  actor ← username_of sid
  role ← Groups.get_member_role group_id actor
  require (present role) (text "DELETE_GROUP: actor is not a member of this group")
  require (str_eq role (text "creator"))
      (text "DELETE_GROUP: only the creator may delete the group")
  members ← Groups.get_members group_id
  for_each (notify p actor) members
  session
  statement
  set_db (λ w. Groups.drop_group group_id w.db)

unfoldable pub handler : Handler
unfolding validate execute_delete
handler = record { validate = validate; authorize = base_authorize; execute = execute_delete }
