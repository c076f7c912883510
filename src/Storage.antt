-- ===== src/Storage.antt =====
-- internal/platform/storage
pub mod Config
pub mod Files
pub mod Objects
