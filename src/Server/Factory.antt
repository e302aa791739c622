-- ===== src/Server/Factory.antt =====
-- backend/src/PacketHandlerFactory.cpp and Server::registerHandlers.
use bit_atm.Prelude.{
  ℕ, Option, none, some, List, [], ◌∷◌, ◌++◌, ◌==◌, if◌then◌else◌, text, pos, to_string,
}
use bit_atm.Error.{protocol}
use bit_atm.Packet.{
  PacketType, login, register, message, key_exchange, ack, sync_history, create_group, read_receipt,
  group_message, group_key_exchange, group_leave, group_info, delete_group, delete_conversation,
  type_code,
}
use bit_atm.Action.{Action, pure, throw}
use bit_atm.Handler.Base.{Handler}
use bit_atm.Handler.Login
use bit_atm.Handler.Register
use bit_atm.Handler.Message
use bit_atm.Handler.KeyExchange
use bit_atm.Handler.Ack
use bit_atm.Handler.SyncHistory
use bit_atm.Handler.ReadReceipt
use bit_atm.Handler.CreateGroup
use bit_atm.Handler.GroupMessage
use bit_atm.Handler.GroupKeyExchange
use bit_atm.Handler.GroupInfo
use bit_atm.Handler.GroupLeave
use bit_atm.Handler.DeleteGroup
use bit_atm.Handler.DeleteConversation

-- _registry, from the code of a packet type.
abbrev pub Registry : Type 0
Registry = List (ℕ × Handler)

unfoldable pub lookup : ℕ → Registry → Option Handler
lookup n [] = none
lookup n ((k, h) ∷ r) = if k == n then some h else lookup n r

-- registerHandler: a later handler for the same type replaces the earlier.
unfoldable pub register_handler : PacketType → Handler → Registry → Registry
register_handler t h [] = (type_code t, h) ∷ []
register_handler t h ((k, g) ∷ r) =
    if k == type_code t then (k, h) ∷ r else (k, g) ∷ register_handler t h r

abbrev or_unregistered : PacketType → Option Handler → Action Handler
or_unregistered t none = throw (
    protocol (
      text "PacketHandlerFactory: no handler registered for type "
      ++ to_string (pos (type_code t))))
or_unregistered t (some h) = pure h

unfoldable pub create : Registry → PacketType → Action Handler
create r t = or_unregistered t (lookup (type_code t) r)

unfoldable pub register_all : List (PacketType × Handler) → Registry → Registry
register_all [] r = r
register_all ((t, h) ∷ more) r = register_all more (register_handler t h r)

-- Server::registerHandlers.
unfoldable pub handlers : Registry
unfolding register_handler register_all
handlers =
    register_all
      ((register, Register.handler)
        ∷ (login, Login.handler)
        ∷ (message, Message.handler)
        ∷ (key_exchange, KeyExchange.handler)
        ∷ (ack, Ack.handler)
        ∷ (sync_history, SyncHistory.handler)
        ∷ (read_receipt, ReadReceipt.handler)
        ∷ (create_group, CreateGroup.handler)
        ∷ (group_message, GroupMessage.handler)
        ∷ (group_key_exchange, GroupKeyExchange.handler)
        ∷ (group_info, GroupInfo.handler)
        ∷ (group_leave, GroupLeave.handler)
        ∷ (delete_group, DeleteGroup.handler)
        ∷ (delete_conversation, DeleteConversation.handler)
        ∷ [])
      []
