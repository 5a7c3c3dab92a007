-- ===== src/Async/Server.antt =====
-- messi/c_source/templates/async/server.c, in the order of its parts.
pub mod State
pub mod Handlers
pub mod Api
pub mod Acting
pub mod Handling
pub mod Rounds
pub mod Delivery
pub mod Deaf
pub mod Unset
mod Tests
