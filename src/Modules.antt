-- ===== src/Modules.antt =====
-- internal/modules: the services that the API server offers.
pub mod Probe
pub mod System
