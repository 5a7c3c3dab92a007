-- ===== src/Linux/Server.antt =====
-- messi/c_source/templates/linux/server.c, in the order of its parts.
pub mod Links
pub mod State
pub mod Output
pub mod Send
pub mod Rules
pub mod Spares
pub mod Handling
pub mod Rounds
pub mod Delivery
pub mod Orderly
pub mod Messages
pub mod Accept
pub mod Api
pub mod Resources
pub mod Lists
pub mod Broadcast
pub mod Life
pub mod Tests
