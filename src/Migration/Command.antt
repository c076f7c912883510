-- ===== src/Migration/Command.antt =====
-- run of cmd/migrate/main.go, and NewSource of internal/platform/secret/source.go. The state counts the
-- databases that are open.
use accountable.Prelude.{
  ℕ, suc, ◌-◌, String, true, not, ◌||◌, ◌≡◌, Result, ok, err, ◌>>=◌, ◌>>◌, reject, ◌==◌,
  if◌then◌else◌, arith,
}
use accountable.Secret.Ref.{SecretConfig, provider_file}
use accountable.Bootstrap.Config.{Config}
use accountable.Database.Config.{DatabaseConfig}

-- The parts that the command uses: LoadFoundation of its arguments, the two kinds of secret source,
-- OpenMigrationDatabase and migration.Run.
pub record Parts (E Source Database : Type 0) : Type 0 where
  pub load_foundation : Result E Config
  pub new_file_source : String → Result E Source
  pub load_aws_config : String → Result E (Unit {0})
  pub infisical_source : SecretConfig → Source
  pub open_migration_database : DatabaseConfig → Source → Result E Database
  pub run_migrations : Database → Result E (Unit {0})
  pub lacks_capabilities : E

module _ {E Source Database : Type 0} (parts : Parts E Source Database) where
  unfoldable pub new_source : SecretConfig → Result E Source
  new_source config =
      if config.provider == provider_file
      then parts.new_file_source config.directory
      else parts.load_aws_config config.aws_region >>= λ _. ok (parts.infisical_source config)

  unfoldable pub prepare : Result E (Config × Source)
  unfolding new_source
  prepare = do
    config ← parts.load_foundation
    reject (not config.capabilities.secrets || not config.capabilities.postgres)
        parts.lacks_capabilities
    source ← new_source config.secrets
    ok (config, source)

  -- The deferred Close of the database that was opened.
  abbrev pub migrated : Result E Database → ℕ → Result E (Unit {0}) × ℕ
  migrated (err e) opened = (err e, opened)
  migrated (ok database) opened = (parts.run_migrations database, suc opened - 1)

  unfoldable pub run : ℕ → Result E (Unit {0}) × ℕ
  unfolding prepare
  run opened = continued prepare
    where
      continued : Result E (Config × Source) → Result E (Unit {0}) × ℕ
      continued (err e) = (err e, opened)
      continued (ok (config, source)) =
          migrated (parts.open_migration_database config.database source) opened

  -- Whatever the command returns, it leaves no more databases open than before, and it applies the
  -- migrations only with a configuration that has secrets and a database.
  pub run_lem :
      (opened : ℕ)
      → ((run opened).1 ≡ opened)
        × ((config : Config) (source : Source)
            → prepare ≡ ok (config, source)
            → (config.capabilities.secrets ≡ true) × (config.capabilities.postgres ≡ true))
  unfolding run prepare
  run_lem opened = (ground arith, λ config source h. (ground arith, ground arith))
