-- ===== src/Core.antt =====
-- rust/src/core: the rate limiter and the anti-abuse challenges.
pub mod ConstantTime
pub mod RateLimit
pub mod Once
pub mod Hex
pub mod Rln
pub mod Vdf
pub mod Pqc
pub mod Token
pub mod Cap
