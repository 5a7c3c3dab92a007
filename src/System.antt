-- ===== src/System.antt =====
-- The generated client and server together, with the network between them.
pub mod ClientToServer
pub mod Follows
pub mod Stream
pub mod ServerToClient
mod Tests
