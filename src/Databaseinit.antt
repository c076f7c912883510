-- ===== src/Databaseinit.antt =====
-- cmd/bootstrap: the roles and grants of a new database.
pub mod Command
pub mod Config
pub mod Passwords
pub mod Roles
