-- ===== src/Databaseinit/Command.antt =====
-- run of cmd/bootstrap/main.go. The state counts the connections to the database that are open.
use accountable.Prelude.{ℕ, suc, ◌-◌, ◌≡◌, String, Result, ok, err, ◌>>=◌, or_else, arith, List}
use accountable.Bytes.{Bytes}
use accountable.Bootstrap.Config.Failure.{Failure, message}
use accountable.Secret.Ref.{SecretConfig}
use accountable.Databaseinit.Config.{InitConfig, Libraries, load_config}

-- NewStore, the two resolutions of passwords, openMasterDatabase and initialiseDatabase.
pub record Parts (Store Connection : Type 0) : Type 0 where
  pub new_store : SecretConfig → Result Failure Store
  pub database_password : Store → Result Failure Bytes
  pub master_password : Result Failure Bytes
  pub open_master : InitConfig → Bytes → Result Failure Connection
  pub initialise : Connection → Bytes → Bytes → Result Failure (Unit {0})

-- What the command has before it opens the connection.
pub record Prepared : Type 0 where
  pub config : InitConfig
  pub api_password : Bytes
  pub migrate_password : Bytes
  pub master_password : Bytes

module _ {Store Connection : Type 0} (parts : Parts Store Connection) (lib : Libraries) where
  unfoldable pub prepare : List String → Result Failure Prepared
  prepare args = do
    config ← load_config lib args
    api_store ←
        or_else (parts.new_store config.api_secrets) (message "API secret store is unavailable")
    migrate_store ←
        or_else (parts.new_store config.migrate_secrets)
          (message "migration secret store is unavailable")
    api_password ←
        or_else (parts.database_password api_store)
          (message "API database credential is unavailable")
    migrate_password ←
        or_else (parts.database_password migrate_store)
          (message "migration database credential is unavailable")
    master_password ←
        or_else parts.master_password (message "master database credential is unavailable")
    ok (record {
      config = config;
      api_password = api_password;
      migrate_password = migrate_password;
      master_password = master_password;
    })

  -- The deferred Close of the connection that was opened.
  abbrev pub initialised : Prepared → Result Failure Connection → ℕ → Result Failure (Unit {0}) × ℕ
  initialised prepared (err e) opened =
      (err (message "master database connection is unavailable"), opened)
  initialised prepared (ok connection) opened =
      (parts.initialise connection prepared.api_password prepared.migrate_password, suc opened - 1)

  unfoldable pub run : List String → ℕ → Result Failure (Unit {0}) × ℕ
  unfolding prepare
  run args opened = continued (prepare args)
    where
      continued : Result Failure Prepared → Result Failure (Unit {0}) × ℕ
      continued (err e) = (err e, opened)
      continued (ok prepared) =
          initialised prepared (parts.open_master prepared.config prepared.master_password) opened

  -- Whatever the command returns, it leaves no more connections open than before.
  pub run-opened : (args : List String) (opened : ℕ) → (run args opened).1 ≡ opened
  unfolding run
  run-opened args opened = ground arith
