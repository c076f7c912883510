-- ===== src/Database/Open.antt =====
-- OpenDatabase and OpenMigrationDatabase of internal/platform/database/database.go. The state counts
-- the pools that are open; the packages called are parameters.
pub mod Laws
use Prim.Native.String.{◌++◌ as concat}
use accountable.Prelude.{
  ℕ, suc, ◌+◌, ◌-◌, ◌≤◌, String, Bool, true, false, not, ◌≡◌, refl, Option, none, some, List, [],
  ◌∷◌, Result, ok, err, ◌>>=◌, ◌>>◌, reject, is_some, ◌==◌, if◌then◌else◌, arith, eq_iff,
  Option-cases, Result-cases, inl, inr,
}
use accountable.Bytes.{Bytes}
use accountable.Maps.{Dict, lookup, insert}
use accountable.Go.{ℤ, pos, Duration}
use accountable.Go.Durations.{milliseconds}
use accountable.Database.Config.{DatabaseConfig}
use accountable.Database.Schema.{DatabaseError, database_unavailable, configuration_invalid}
use accountable.Database.Check.{Answers, check}

-- The fields of the url.URL of a connection; `raw_query` before its encoding.
pub record ConnectionUrl : Type 0 where
  pub scheme : String
  pub user : String
  pub host : String
  pub path : String
  pub query : Dict String

-- The fields of pgxpool.Config that are set; the session initializer is its role.
pub record PoolConfig : Type 0 where
  pub url : ConnectionUrl
  pub password : Bytes
  pub connect_timeout : Duration
  pub statement_timeout : ℤ
  pub max_connections : ℤ
  pub max_idle_time : Duration
  pub max_lifetime : Duration
  pub health_check_period : Duration
  pub after_connect : List String

-- net.JoinHostPort of a port, pgx.Identifier's Sanitize, whether pgxpool.ParseConfig accepts a URL,
-- whether pgxpool.NewWithConfig creates a pool and what a ResolveBatch of one reference returns.
pub record Packages : Type 0 where
  pub join_host_port : String → ℕ → String
  pub sanitize : String → String
  pub parses : ConnectionUrl → Bool
  pub creates : PoolConfig → Bool
  pub resolve_batch : List String → Option (Dict Bytes)

-- The statements that a new connection runs, up to the first that fails.
unfoldable pub session_initializer : Packages → String → List String
session_initializer packages role =
    "SET TIME ZONE 'UTC'"
    ∷ "SET search_path TO public"
    ∷ concat "SET ROLE " (packages.sanitize role)
    ∷ []

unfoldable pub connection_url : Packages → DatabaseConfig → ConnectionUrl
connection_url packages config = record {
  scheme = "postgres";
  user = config.user;
  host = packages.join_host_port config.host config.port;
  path = config.name;
  query =
      if config.tls_root_ca_file == ""
      then ("sslmode", config.tls_mode) ∷ []
      else insert "sslrootcert" config.tls_root_ca_file (("sslmode", config.tls_mode) ∷ []);
}

unfoldable pub database_pool_config :
    Packages → DatabaseConfig → Bytes → Result DatabaseError PoolConfig
database_pool_config packages config password = do
  reject (not (packages.parses (connection_url packages config))) configuration_invalid
  ok (record {
    url = connection_url packages config;
    password = password;
    connect_timeout = config.connect_timeout;
    statement_timeout = milliseconds config.statement_timeout;
    max_connections = config.max_connections;
    max_idle_time = pos 300_000_000_000;
    max_lifetime = pos 3_600_000_000_000;
    health_check_period = config.health_check_interval;
    after_connect = session_initializer packages config.role;
  })

-- The password that the secret source has for the configuration.
unfoldable pub password_of : Packages → DatabaseConfig → Result DatabaseError Bytes
password_of packages config = found (packages.resolve_batch (config.password_ref ∷ []))
  where
    found : Option (Dict Bytes) → Result DatabaseError Bytes
    found none = err database_unavailable
    found (some values) = value (lookup config.password_ref values)
      where
        value : Option Bytes → Result DatabaseError Bytes
        value none = err database_unavailable
        value (some password) = ok password

pub record Database : Type 0 where
  pub pool : PoolConfig
  pub config : DatabaseConfig

-- The pools that are open, and the connections of the new one that are in use.
pub record Pools : Type 0 where
  pub opened : ℕ
  pub in_use : ℕ

unfoldable pub pool_config : Packages → DatabaseConfig → Result DatabaseError PoolConfig
pool_config packages config = do
  password ← password_of packages config
  database_pool_config packages config password

abbrev pub checked :
    Database → ℕ → Result DatabaseError (Unit {0}) × ℕ → Result DatabaseError Database × Pools
checked database opened (ok _, in_use) =
    (ok database, record { opened = suc opened; in_use = in_use })
checked database opened (err e, in_use) =
    (err e, record { opened = suc opened - 1; in_use = in_use })

unfoldable pub open_database :
    Packages → DatabaseConfig → Answers → ℕ → Result DatabaseError Database × Pools
open_database packages config answers opened = with_pool (pool_config packages config)
  where
    with_pool : Result DatabaseError PoolConfig → Result DatabaseError Database × Pools
    with_pool (err e) = (err e, record { opened = opened; in_use = 0 })
    with_pool (ok pool) =
        if packages.creates pool
        then checked (record { pool = pool; config = config }) opened (check config answers 0)
        else (err database_unavailable, record { opened = opened; in_use = 0 })

-- The handle of database/sql: the connection's configuration and its bounds on connections.
pub record MigrationDatabase : Type 0 where
  pub pool : PoolConfig
  pub max_open : ℤ
  pub max_idle : ℤ

unfoldable pub open_migration_database :
    Packages → DatabaseConfig → Answers → ℕ → Result DatabaseError MigrationDatabase × ℕ
open_migration_database packages config answers opened = with_pool (pool_config packages config)
  where
    with_pool : Result DatabaseError PoolConfig → Result DatabaseError MigrationDatabase × ℕ
    with_pool (err e) = (err e, opened)
    with_pool (ok pool) =
        if answers.pings
        then (
          ok (record {
            pool = pool;
            max_open = config.max_connections;
            max_idle = config.max_connections;
          }),
          suc opened,
        )
        else (err database_unavailable, suc opened - 1)
