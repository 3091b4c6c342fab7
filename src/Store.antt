-- ===== src/Store.antt =====
-- internal/store.
mod Tests
mod SessionTests
pub mod Samples
pub mod Models
pub mod Tx
pub mod Users
pub mod Lists
pub mod Sessions
pub mod Groups
pub mod Audit
