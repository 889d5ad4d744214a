-- ===== src/Examples.antt =====
-- Concrete runs of the theorems on each part of the server.
pub mod Core
pub mod Vdf
pub mod Redeem
pub mod Phantom
pub mod Room
pub mod Account
pub mod Links
pub mod Chat
pub mod Manage
