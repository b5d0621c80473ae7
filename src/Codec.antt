-- ===== src/Codec.antt =====
-- codec/: how requests and responses go over a connection.
pub mod Wire
pub mod Bson
pub mod Conn
pub mod ConnHooks
pub mod Buffered
pub mod Gob
