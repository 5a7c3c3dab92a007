-- ===== src/Linux/Client.antt =====
-- messi/c_source/templates/linux/client.c, in the order of its parts.
pub mod State
pub mod Socket
pub mod Connect
pub mod Api
pub mod Callbacks
pub mod Handling
pub mod Delivery
pub mod EndToEnd
pub mod Rules
pub mod Resources
pub mod Life
pub mod KeepAlive
pub mod Reconnect
pub mod Tests
