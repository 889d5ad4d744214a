-- ===== src/Room.antt =====
-- Community rooms: rust/src/core/models.rs and the room operations of
-- rust/src/websocket/protocol.rs.
pub mod Record
pub mod Decide
pub mod Server
pub mod Acts
pub mod Handlers
pub mod Icon
pub mod Manage
