-- ===== src/Config.antt =====
-- internal/config/config.go: the environment's values with their defaults, and what a start is
-- refused for.
pub mod Texts
pub mod Proxies
pub mod Values
pub mod Env
pub mod Load
pub mod Safe
mod Tests
