-- ===== src/Server/Ordered.antt =====
-- The rows of group_message_receipts under the handlers and the connection loop of backend/src.
pub mod Groups
pub mod Keys
pub mod Messages
pub mod Accounts
pub mod Connection
