-- ===== src/Client.antt =====
-- frontend/src: the Qt client.
pub mod Sql
pub mod Storage
pub mod Chat
pub mod Conversations
pub mod Crypto
pub mod Date
pub mod Throwing
pub mod Map
pub mod Network
