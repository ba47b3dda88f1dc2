-- ===== src/Store.antt =====
-- internal/store
pub mod Models
pub mod Table
pub mod Db
pub mod Settings
pub mod Sites
pub mod Rules
pub mod Events
pub mod Operations
pub mod Stats
