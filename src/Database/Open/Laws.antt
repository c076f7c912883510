-- ===== src/Database/Open/Laws.antt =====
-- What an opened database went through, and what a failed opening leaves behind.
use accountable.Prelude.{
  ℕ, suc, true, ◌≡◌, ◌⊎◌, refl, some, [], ◌∷◌, ok, err, arith, Result-cases, inl, inr, is_some-some,
  Bool-cases,
}
use accountable.Bytes.{Bytes}
use accountable.Maps.{Dict, lookup}
use accountable.Database.Config.{DatabaseConfig}
use accountable.Database.Schema.{DatabaseError, database_unavailable}
use accountable.Database.Check.{Answers, check, check_released}
use accountable.Database.Open.{
  Packages, PoolConfig, Database, database_pool_config, password_of, pool_config,
  session_initializer, open_database, MigrationDatabase, open_migration_database,
}

-- The configuration of a pool has the password that the secret source gave for the reference of
-- the configuration, and its connections first run the statements of the session.
pub pool_config_sound :
    (packages : Packages) (config : DatabaseConfig) (pool : PoolConfig)
    → pool_config packages config ≡ ok pool
    → (values : Dict Bytes) × (packages.resolve_batch (config.password_ref ∷ []) ≡ some values)
      × (lookup config.password_ref values ≡ some pool.password)
      × (pool.after_connect ≡ session_initializer packages config.role)
      × (packages.parses pool.url ≡ true)
unfolding pool_config password_of database_pool_config
pool_config_sound packages config pool h =
    let (values, v) =
      is_some-some (packages.resolve_batch (config.password_ref ∷ [])) (λ e. ground arith) in
    let (password, p) = is_some-some (lookup config.password_ref values) (λ e. ground arith) in
    (values, v, ground arith, ground arith, ground arith)

-- OpenDatabase either returns a database of the configuration whose Check has just succeeded, with
-- one more pool open, or returns an error and leaves no more pools open than before; either way it
-- leaves no connection in use.
pub open_database_sound :
    (packages : Packages) (config : DatabaseConfig) (answers : Answers) (opened : ℕ)
    → let (outcome, pools) = open_database packages config answers opened in
      (pools.in_use ≡ 0)
      × (((database : Database) × (outcome ≡ ok database)
            × (pools.opened ≡ suc opened)
            × (database.config ≡ config)
            × (pool_config packages config ≡ ok database.pool)
            × ((check database.config answers 0).0 ≡ ok tt))
          ⊎ ((e : DatabaseError) × (outcome ≡ err e) × (pools.opened ≡ opened)))
unfolding open_database
open_database_sound packages config answers opened =
    let kept = check_released config answers 0 in
    elim (Result-cases (pool_config packages config)) [
      | inr (e, p) ↦ rw p (refl, inr (e, refl, refl))
      | inl (pool, p) ↦ elim (Bool-cases (packages.creates pool)) [
        | inr refused ↦ rw (p, refused) (refl, inr (database_unavailable, refl, refl))
        | inl created ↦ elim (Result-cases (check config answers 0).0) [
          | inr (e, c) ↦ rw (p, created, c, kept) (refl, inr (e, refl, omega arith))
          | inl (done, c) ↦
              rw (p, created, c, kept)
                (refl, inl (record { pool = pool; config = config }, refl, refl, refl, refl, c))
        ]
      ]
    ]

-- OpenMigrationDatabase either returns a handle of one more pool, whose first ping succeeded, or
-- returns an error and leaves no more pools open than before.
pub open_migration_database_sound :
    (packages : Packages) (config : DatabaseConfig) (answers : Answers) (opened : ℕ)
    → let (outcome, after) = open_migration_database packages config answers opened in
      ((e : DatabaseError) → outcome ≡ err e → after ≡ opened)
      × ((database : MigrationDatabase)
          → outcome ≡ ok database
          → (after ≡ suc opened)
            × (answers.pings ≡ true)
            × (pool_config packages config ≡ ok database.pool)
            × (database.max_open ≡ config.max_connections))
unfolding open_migration_database
open_migration_database_sound packages config answers opened =
    elim (Result-cases (pool_config packages config)) [
      | inr (e, p) ↦ rw p (λ _ _. refl, λ _ h. cc)
      | inl (pool, p) ↦ elim (Bool-cases answers.pings) [
        | inr refused ↦ rw (p, refused) (λ _ _. omega arith, λ _ h. cc)
        | inl pinged ↦
            rw (p, pinged)
              (λ _ h. cc, λ database h. (ground arith, refl, ground arith, ground arith))
      ]
    ]
