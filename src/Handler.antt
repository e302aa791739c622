-- ===== src/Handler.antt =====
-- The packet handlers of backend/src.
pub mod Base
pub mod Password
pub mod Login
pub mod Register
pub mod Message
pub mod KeyExchange
pub mod Ack
pub mod SyncHistory
pub mod ReadReceipt
pub mod CreateGroup
pub mod GroupMessage
pub mod GroupKeyExchange
pub mod GroupInfo
pub mod GroupLeave
pub mod DeleteGroup
pub mod DeleteConversation
