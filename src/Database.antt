-- ===== src/Database.antt =====
-- internal/platform/database
pub mod Config
pub mod Schema
pub mod Check
pub mod Clock
pub mod Open
