-- ===== src/Bootstrap.antt =====
-- internal/bootstrap: the runtime configuration, and the dependencies that it builds.
pub mod Config
pub mod Dependencies
