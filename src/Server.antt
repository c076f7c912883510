-- ===== src/Server.antt =====
-- cmd/api/serve.go and internal/server: the parts of the API server.
pub mod Interceptors
pub mod LimitListener
pub mod Middleware
pub mod Readiness
