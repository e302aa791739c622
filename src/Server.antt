-- ===== src/Server.antt =====
-- backend/src/Server.cpp, ClientSession.cpp and PacketHandlerFactory.cpp.
pub mod Clients
pub mod Factory
pub mod Connection
pub mod Cleanup
pub mod Reject
pub mod Ordered
