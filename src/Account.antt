-- ===== src/Account.antt =====
-- What accounts are given by their users: names, passwords, recovery phrases, files.
pub mod Names
pub mod Files
pub mod Images
