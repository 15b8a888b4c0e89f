-- ===== src/Network.antt =====
-- network/: what the server and the client send each other.
pub mod ErrorCode
pub mod Protocol
pub mod Resp
mod Tests
