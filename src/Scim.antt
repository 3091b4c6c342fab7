-- ===== src/Scim.antt =====
-- internal/scim.
pub mod Values
pub mod Patch
pub mod List
pub mod Users
pub mod Groups
mod Tests
