-- ===== src/Phantom.antt =====
-- The anonymous mailbox: services/phantom.rs and services/privacy_pass.rs.
pub mod Store
pub mod PrivacyPass
pub mod Mailbox
