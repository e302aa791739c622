-- ===== src/Handler/DeleteConversation.antt =====
-- backend/src/DeleteConversationHandler.cpp.
use bit_atm.Prelude.{ℕ, Bool, true, false, not, Option, none, some, [], Str, text}
use bit_atm.Packet.{ack, delete_conversation, Packet, blank}
use bit_atm.Action.{Action, pure, ◌>>=◌, ◌>>◌, when, require, catch_network, send}
use bit_atm.Handler.Base.{Handler, base_authorize, present, username_of, find_client}
use bit_atm.Repo.Messages
use bit_atm.Repo.Pending

unfoldable pub validate : Packet → Action (Unit {0})
validate p = require (present p.to) (text "DELETE_CONVERSATION: peer (to) is required")

-- Whether the peer was told.
unfoldable pub tell : Str → Str → Option ℕ → Action Bool
tell actor peer none = pure false
tell actor peer (some sid) =
    catch_network
      (do send sid (record (blank delete_conversation) { from = actor; to = peer }); pure true)
      (pure false)

unfoldable pub execute_delete : Packet → ℕ → Action (Unit {0})
unfolding tell
execute_delete p sid = do
  actor ← username_of sid
  Messages.delete_conversation actor p.to
  peer ← find_client p.to
  delivered ← tell actor p.to peer
  when (not delivered) (Pending.queue p.to delete_conversation actor [] [] [])
  send sid (record (blank ack) { to = actor })

unfoldable pub handler : Handler
unfolding validate execute_delete
handler = record { validate = validate; authorize = base_authorize; execute = execute_delete }
