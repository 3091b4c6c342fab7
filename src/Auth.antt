-- ===== src/Auth.antt =====
-- internal/auth.
pub mod Pow
pub mod Session
pub mod ClientIp
mod Tests
