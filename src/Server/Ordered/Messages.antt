-- ===== src/Server/Ordered/Messages.antt =====
-- The handlers of messages, receipts, history and conversations.
use bit_atm.Prelude.{ℕ, Option, none, some, Str, ℤ}
use bit_atm.Error.{Error, protocol, network, db, crypto, poco, std_error}
use bit_atm.Packet.{Packet}
use bit_atm.Db.{Message, OfflineMessage}
use bit_atm.Action.{Action}
use bit_atm.Handler.Base.{stoi_or_throw}
use bit_atm.Repo.Messages
use bit_atm.Repo.OfflineQueue
use bit_atm.Repo.Groups
use bit_atm.Action.Keeps.{Keeps, keeps_rules, Keeps-execute, Keeps-pure, Keeps-throw}
use bit_atm.Repo.Ordered.{IsOrdered, ordered_rules}
use bit_atm.Repo.Groups
use bit_atm.Repo.Messages
use bit_atm.Repo.OfflineQueue
use bit_atm.Handler.Base.{handle, stoi_or_throw, stoi_result}
use bit_atm.Handler.Message
use bit_atm.Handler.Ack
use bit_atm.Handler.ReadReceipt
use bit_atm.Handler.SyncHistory
use bit_atm.Handler.DeleteConversation
use bit_atm.Server.Ordered.Groups.{base_authorize-IsOrdered, queue-IsOrdered}

queue_last-IsOrdered : (u : Str) (o : Option Message) → Keeps IsOrdered (Message.queue_last u o)
unfolding Message.queue_last
queue_last-IsOrdered u none = Keeps-pure tt
queue_last-IsOrdered u (some m) = search ordered_rules

route-IsOrdered : (p : Packet) (o : Option ℕ) → Keeps IsOrdered (Message.route p o)
unfolding Message.route Messages.find_by_recipient
route-IsOrdered p none = search (keeps_rules, queue_last-IsOrdered)
route-IsOrdered p (some sid) = search keeps_rules

pub message-IsOrdered : (p : Packet) (sid : ℕ) → Keeps IsOrdered (handle Message.handler p sid)
unfolding Message.handler Message.validate Message.execute_message Message.echo handle
message-IsOrdered p sid =
    search (keeps_rules, ordered_rules, base_authorize-IsOrdered, route-IsOrdered) depth 20

stoi_result-IsOrdered : (o : Option ℤ) → Keeps IsOrdered (stoi_result o)
stoi_result-IsOrdered none = Keeps-throw _
stoi_result-IsOrdered (some n) = Keeps-pure n

ack_tell-IsOrdered :
    (p : Packet) (m : Str) (g : ℤ) (f : Packet) (s : Str) (o : Option ℕ)
    → Keeps IsOrdered (Ack.tell p m g f s o)
unfolding Ack.tell
ack_tell-IsOrdered p m g f s none = search ordered_rules
ack_tell-IsOrdered p m g f s (some sid) = search keeps_rules

mark_message-IsOrdered : (o : Option Message) → Keeps IsOrdered (Ack.mark_message o)
unfolding Ack.mark_message Messages.save
mark_message-IsOrdered none = Keeps-pure tt
mark_message-IsOrdered (some m) = search (keeps_rules, Keeps-execute)

mark_first-IsOrdered : (o : Option OfflineMessage) → Keeps IsOrdered (Ack.mark_first o)
unfolding Ack.mark_first OfflineQueue.mark_delivered
mark_first-IsOrdered none = Keeps-pure tt
mark_first-IsOrdered (some m) = search (keeps_rules, Keeps-execute)

pub ack-IsOrdered : (p : Packet) (sid : ℕ) → Keeps IsOrdered (handle Ack.handler p sid)
unfolding Ack.handler Ack.validate Ack.execute_ack Ack.execute_group_delivered Ack.acknowledge
    Ack.tell_sender stoi_or_throw Groups.get_member_role Messages.find_by_id OfflineQueue.find_all
    handle
ack-IsOrdered p sid =
    search
      (
        keeps_rules, ordered_rules, base_authorize-IsOrdered, stoi_result-IsOrdered,
        ack_tell-IsOrdered, mark_message-IsOrdered, mark_first-IsOrdered,
      )
      depth 20

receipt_tell-IsOrdered :
    (p : Packet) (g : ℤ) (m : Str) (o : Option ℕ) → Keeps IsOrdered (ReadReceipt.tell p g m o)
unfolding ReadReceipt.tell
receipt_tell-IsOrdered p g m none = search ordered_rules
receipt_tell-IsOrdered p g m (some sid) = search keeps_rules

deliver-IsOrdered : (p : Packet) (o : Option ℕ) → Keeps IsOrdered (ReadReceipt.deliver p o)
unfolding ReadReceipt.deliver
deliver-IsOrdered p none = search ordered_rules
deliver-IsOrdered p (some sid) = search keeps_rules

pub read_receipt-IsOrdered :
    (p : Packet) (sid : ℕ) → Keeps IsOrdered (handle ReadReceipt.handler p sid)
unfolding ReadReceipt.handler ReadReceipt.validate ReadReceipt.execute_receipt
    ReadReceipt.execute_group ReadReceipt.execute_direct ReadReceipt.tell_member stoi_or_throw
    Groups.get_member_role Groups.get_members handle
read_receipt-IsOrdered p sid =
    search
      (
        keeps_rules, ordered_rules, base_authorize-IsOrdered, stoi_result-IsOrdered,
        receipt_tell-IsOrdered, deliver-IsOrdered,
      )
      depth 20

on_db-IsOrdered :
    {A : Type 0} (m : Action A) (e : Error)
    → Keeps IsOrdered m
    → Keeps IsOrdered (SyncHistory.on_db m e)
on_db-IsOrdered m (db t) k = k
on_db-IsOrdered m (protocol t) k = Keeps-throw _
on_db-IsOrdered m (network t) k = Keeps-throw _
on_db-IsOrdered m (crypto t) k = Keeps-throw _
on_db-IsOrdered m (poco t) k = Keeps-throw _
on_db-IsOrdered m (std_error t) k = Keeps-throw _

pub sync-IsOrdered : (p : Packet) (sid : ℕ) → Keeps IsOrdered (handle SyncHistory.handler p sid)
unfolding SyncHistory.handler SyncHistory.validate SyncHistory.execute_sync handle
sync-IsOrdered p sid =
    search (keeps_rules, ordered_rules, base_authorize-IsOrdered, on_db-IsOrdered) depth 20

conversation_tell-IsOrdered :
    (a p : Str) (o : Option ℕ) → Keeps IsOrdered (DeleteConversation.tell a p o)
unfolding DeleteConversation.tell
conversation_tell-IsOrdered a p none = Keeps-pure _
conversation_tell-IsOrdered a p (some sid) = search keeps_rules

pub delete_conversation_handler-IsOrdered :
    (p : Packet) (sid : ℕ) → Keeps IsOrdered (handle DeleteConversation.handler p sid)
unfolding DeleteConversation.handler DeleteConversation.validate DeleteConversation.execute_delete
    handle
delete_conversation_handler-IsOrdered p sid =
    search
      (
        keeps_rules, ordered_rules, base_authorize-IsOrdered, conversation_tell-IsOrdered,
        queue-IsOrdered,
      )
      depth 20
