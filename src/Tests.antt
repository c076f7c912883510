-- ===== src/Tests.antt =====
-- The properties at concrete inputs.
mod Configs
mod Binaries
mod Databases
mod Policies
mod Running
mod Requests
mod Secrets
mod Services
