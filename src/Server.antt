-- ===== src/Server.antt =====
-- The server: server/src.
pub mod Dispatch
pub mod Update
pub mod Handshake
pub mod Broadcast
pub mod Clients
pub mod Heartbeat
pub mod Sockets
pub mod Dispatcher
