-- ===== src/Secret.antt =====
-- internal/platform/secret: references, sources and stores of secrets.
pub mod Ref
pub mod Batch
pub mod File
pub mod Infisical
