-- ===== src/Handler/GroupLeave.antt =====
-- backend/src/GroupLeaveHandler.cpp.
pub mod Creator
use bit_atm.Prelude.{
  ℕ, zero, suc, ◌+◌, ◌-◌, ◌*◌, ◌/◌, ◌%◌, ◌≤◌, ◌<◌, String, ◌≡◌, refl, sym, ap, ◌∙◌, ◌≢◌, ◌↔◌, ◌⊎◌,
  inl, inr, Bool, true, false, not, ◌&&◌, ◌||◌, Option, none, some, List, [], ◌∷◌, ◌++◌, map, arith,
  ltb, leb, ◌==◌, if◌then◌else◌, ==_iff, ==_refl, Bool-cases, Option-cases, length, length-append,
  is_empty, select, head?, last?, any, every, All, Str, text, str_eq, str_eq_refl, str_eq→≡,
  str_eq_iff, is_digit, is_space, split_at, tokens, ℤ, pos, negsuc, int_eq, int_eq_refl, int_eq→≡,
  int_max, in_int, to_string, skip_spaces, read_digits, read_number, stoi,
}
use bit_atm.Error.{Error, protocol, network, db, crypto, poco, std_error, what}
use bit_atm.Packet.{
  PacketType, login, register, message, key_exchange, ack, err_packet, sync_history, create_group,
  read_receipt, group_message, group_key_exchange, group_invite, group_leave, group_info,
  delete_group, delete_conversation, Packet, blank, type_code,
}
use bit_atm.Db.{
  User, Message, Session, OfflineMessage, GroupInfo, GroupMember, GroupMessage, ReadReceipt,
  PendingNotification, Db, order_by, update_where,
}
use bit_atm.World.{World, Env, ClientSession, State, connected, authenticated, disconnected}
use bit_atm.Action.{
  Action, pure, throw, gets, modify, ◌>>=◌, ◌>>◌, skip, when, require, or_throw, try_catch,
  catch_network, in_repo, query, execute, set_db, session, statement, for_each, next_tick, send,
  now,
}
use bit_atm.Handler.Base.{
  Handler, base_authorize, present, is_numeric, stoi_or_throw, username_of, find_client,
  sessions_for, send_quietly,
}
use bit_atm.Repo.Users
use bit_atm.Repo.Messages
use bit_atm.Repo.OfflineQueue
use bit_atm.Repo.Sessions
use bit_atm.Repo.Groups
use bit_atm.Repo.Receipts
use bit_atm.Repo.Pending

unfoldable pub validate : Packet → Action (Unit {0})
validate p = require (present p.to) (text "GROUP_LEAVE: group_id (to) is required")

-- What the guards in front of removeMember let pass.
unfoldable pub guard_kick : Bool → Str → Str → Action (Unit {0})
guard_kick kick actor_role target_role = do
  require (not (str_eq target_role (text "creator")))
      (text "GROUP_LEAVE: creator cannot leave or be kicked")
  when kick (do
    require (not (str_eq target_role (text "admin") && not (str_eq actor_role (text "creator"))))
        (text "GROUP_LEAVE: only the creator can kick an admin")
    require (str_eq actor_role (text "creator") || str_eq actor_role (text "admin"))
        (text "GROUP_LEAVE: only creator or admin can kick members"))

unfoldable pub tell : Packet → Str → Option ℕ → Action (Unit {0})
tell p target none = skip
tell p target (some sid) =
    send_quietly sid (record (blank group_leave) { to = target; body = p.to })

-- Who is to go: the member that the body names, or the actor.
abbrev pub target_of : Packet → Str → Str
target_of p actor = if present p.body then p.body else actor

-- removeMember and deleteReceiptsForMember, behind the guards.
unfoldable pub remove_target : Packet → ℤ → Str → Action (Unit {0})
remove_target p group_id actor = do
  actor_role ← Groups.get_member_role group_id actor
  require (present actor_role) (text "GROUP_LEAVE: actor is not a member of group " ++ p.to)
  target_role ← Groups.get_member_role group_id (target_of p actor)
  guard_kick (present p.body) actor_role target_role
  Groups.remove_member group_id (target_of p actor)
  Receipts.delete_receipts_for_member group_id (target_of p actor)

unfoldable pub execute_leave : Packet → ℕ → Action (Unit {0})
unfolding tell
execute_leave p sid = do
  group_id ← or_throw (stoi p.to) (text "GROUP_LEAVE: invalid group_id in 'to'")
  actor ← username_of sid
  remove_target p group_id actor
  peer ← find_client (target_of p actor)
  tell p (target_of p actor) peer
  when (present p.body)
      (send sid (record (blank group_leave) { to = actor; body = text "rotate"; key = p.to }))

unfoldable pub handler : Handler
unfolding validate execute_leave
handler = record { validate = validate; authorize = base_authorize; execute = execute_leave }
