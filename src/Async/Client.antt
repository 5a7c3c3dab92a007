-- ===== src/Async/Client.antt =====
-- messi/c_source/templates/async/client.c, in the order of its parts.
pub mod State
pub mod Handlers
pub mod Api
pub mod Lifecycle
pub mod UnderWay
pub mod Handling
pub mod Delivery
pub mod KeepAlive
pub mod Reconnect
mod Tests
