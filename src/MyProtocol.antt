-- ===== src/MyProtocol.antt =====
-- The programs of examples/my_protocol, on the generated client and server: the messages of
-- examples/my_protocol/my_protocol.proto, which have no fields. What the programs print is left out.
pub mod Client
pub mod Server
mod Tests

pub data ToServer : Type 0 where
  foo_req bar_ind fie_rsp : ToServer

pub data ToClient : Type 0 where
  foo_rsp fie_req : ToClient
