-- ===== src/Links.antt =====
-- Addresses that the server fetches: linkpreview.rs and core/activity.rs.
pub mod Address
pub mod Cache
pub mod Activity
