-- ===== src/Crypto.antt =====
-- internal/platform/crypto
pub mod Aws
pub mod Config
pub mod Local
