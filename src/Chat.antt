-- ===== src/Chat.antt =====
-- Messages, reactions and polls of websocket/protocol.rs.
pub mod Record
pub mod Reactions
pub mod Encrypted
pub mod Messages
pub mod Attachment
pub mod Preview
pub mod Send
pub mod Amend
pub mod Edit
pub mod Poll
pub mod History
pub mod Calls
pub mod Keeps
pub mod Invariant
