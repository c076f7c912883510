-- ===== src/Migration.antt =====
-- internal/migration: the migration files of all owners, and their application to a database.
pub mod Catalogue
pub mod Command
pub mod Runner
pub mod Sources
