-- ===== src/Async.antt =====
-- messi/c_source/templates/async: the client and the server on an event framework.
pub mod Client
pub mod Server
