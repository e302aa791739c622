-- ===== src/Server/Reject/Handlers.antt =====
-- The handlers of backend/src on packets of sessions that are not authorised.
use bit_atm.Prelude.{ℕ, refl, ◌≢◌}
use bit_atm.Packet.{
  PacketType, login, register, message, key_exchange, ack, err_packet, sync_history, create_group,
  read_receipt, group_message, group_key_exchange, group_invite, group_leave, group_info,
  delete_group, delete_conversation, Packet,
}
use bit_atm.World.{World}
use bit_atm.Action.{◌>>=◌, throw, pure}
use bit_atm.Action.Leads.{Guards-bind, Guards-require, Guards-if}
use bit_atm.Handler.Base.{Handler, handle}
use bit_atm.Handler.Message
use bit_atm.Handler.KeyExchange
use bit_atm.Handler.Ack
use bit_atm.Handler.SyncHistory
use bit_atm.Handler.ReadReceipt
use bit_atm.Handler.CreateGroup
use bit_atm.Handler.GroupMessage
use bit_atm.Handler.GroupKeyExchange
use bit_atm.Handler.GroupInfo
use bit_atm.Handler.GroupLeave
use bit_atm.Handler.DeleteGroup
use bit_atm.Handler.DeleteConversation
use bit_atm.Server.Factory.{create, handlers, lookup}
use bit_atm.Server.Reject.{Rejected, Unauthorised, handle-Rejected, Rejected-here}

-- A handler that rejects every packet of every unauthorised session.
abbrev Rejects : Handler → Type 0
Rejects h = (p : Packet) (sid : ℕ) (w : World) → Unauthorised w sid → Rejected w (handle h p sid w)

key_exchange-Rejects : Rejects KeyExchange.handler
unfolding KeyExchange.handler
key_exchange-Rejects p sid w u =
    handle-Rejected _ _ p sid w (Guards-bind _ _ (Guards-require _ _) (Guards-require _ _)) u

sync-Rejects : Rejects SyncHistory.handler
unfolding SyncHistory.handler
sync-Rejects p sid w u = handle-Rejected _ _ p sid w (Guards-require _ _) u

read_receipt-Rejects : Rejects ReadReceipt.handler
unfolding ReadReceipt.handler
read_receipt-Rejects p sid w u =
    handle-Rejected _ _ p sid w
      (Guards-bind _ _ (Guards-require _ _)
        (Guards-bind _ _ (Guards-require _ _) (Guards-require _ _)))
      u

message-Rejects : Rejects Message.handler
unfolding Message.handler
message-Rejects p sid w u =
    handle-Rejected _ _ p sid w
      (Guards-bind _ _ (Guards-require _ _) (
        Guards-bind _ _ (Guards-require _ _)
          (Guards-bind _ _ (Guards-require _ _) (Guards-require _ _))))
      u

group_message-Rejects : Rejects GroupMessage.handler
unfolding GroupMessage.handler
group_message-Rejects p sid w u =
    handle-Rejected _ _ p sid w
      (Guards-bind _ _ (Guards-require _ _)
        (Guards-bind _ _ (Guards-require _ _) (Guards-require _ _)))
      u

group_key_exchange-Rejects : Rejects GroupKeyExchange.handler
unfolding GroupKeyExchange.handler
group_key_exchange-Rejects p sid w u = handle-Rejected _ _ p sid w (Guards-require _ _) u

group_info-Rejects : Rejects GroupInfo.handler
unfolding GroupInfo.handler
group_info-Rejects p sid w u = handle-Rejected _ _ p sid w (Guards-require _ _) u

group_leave-Rejects : Rejects GroupLeave.handler
unfolding GroupLeave.handler
group_leave-Rejects p sid w u = handle-Rejected _ _ p sid w (Guards-require _ _) u

delete_group-Rejects : Rejects DeleteGroup.handler
unfolding DeleteGroup.handler
delete_group-Rejects p sid w u = handle-Rejected _ _ p sid w (Guards-require _ _) u

delete_conversation-Rejects : Rejects DeleteConversation.handler
unfolding DeleteConversation.handler
delete_conversation-Rejects p sid w u = handle-Rejected _ _ p sid w (Guards-require _ _) u

create_group-Rejects : Rejects CreateGroup.handler
unfolding CreateGroup.handler
create_group-Rejects p sid w u =
    handle-Rejected _ _ p sid w
      (Guards-bind _ _ (Guards-require _ _) (
        Guards-bind _ _ (Guards-require _ _)
          (Guards-bind _ _ (Guards-require _ _) (Guards-require _ _))))
      u

ack-Rejects : Rejects Ack.handler
unfolding Ack.handler
ack-Rejects p sid w u =
    handle-Rejected _ _ p sid w
      (Guards-if _ _ _ (Guards-bind _ _ (Guards-require _ _) (Guards-require _ _))
        (Guards-bind _ _ (Guards-require _ _) (Guards-require _ _)))
      u

-- The dispatch by packet type: for any type but those two.
pub create-Rejected :
    (t : PacketType) (p : Packet) (sid : ℕ) (w : World)
    → t ≢ login
    → t ≢ register
    → Unauthorised w sid
    → Rejected w ((create handlers t >>= λ h. handle h p sid) w)
unfolding create handlers lookup handle ◌>>=◌ throw pure
create-Rejected login p sid w l r u = absurd (l refl)
create-Rejected register p sid w l r u = absurd (r refl)
create-Rejected message p sid w l r u = message-Rejects p sid w u
create-Rejected key_exchange p sid w l r u = key_exchange-Rejects p sid w u
create-Rejected ack p sid w l r u = ack-Rejects p sid w u
create-Rejected err_packet p sid w l r u = Rejected-here w _ _ refl
create-Rejected sync_history p sid w l r u = sync-Rejects p sid w u
create-Rejected create_group p sid w l r u = create_group-Rejects p sid w u
create-Rejected read_receipt p sid w l r u = read_receipt-Rejects p sid w u
create-Rejected group_message p sid w l r u = group_message-Rejects p sid w u
create-Rejected group_key_exchange p sid w l r u = group_key_exchange-Rejects p sid w u
create-Rejected group_invite p sid w l r u = Rejected-here w _ _ refl
create-Rejected group_leave p sid w l r u = group_leave-Rejects p sid w u
create-Rejected group_info p sid w l r u = group_info-Rejects p sid w u
create-Rejected delete_group p sid w l r u = delete_group-Rejects p sid w u
create-Rejected delete_conversation p sid w l r u = delete_conversation-Rejects p sid w u
