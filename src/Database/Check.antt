-- ===== src/Database/Check.antt =====
-- Check and Ping of internal/platform/database/database.go. What the server answers is a parameter;
-- the state counts the connections of the pool that are in use.
use accountable.Prelude.{
  ℕ, suc, ◌-◌, String, Bool, true, false, not, ◌||◌, ◌≡◌, ◌↔◌, Option, none, some, Result, ok, err,
  ◌>>◌, reject, ◌==◌, if◌then◌else◌, arith, eq_iff, is_some-some,
}
use accountable.Go.{ℤ, pos}
use accountable.Database.Config.{DatabaseConfig, tls_verify_full}
use accountable.Database.Schema.{
  DatabaseError, database_unavailable, database_timezone, database_session, schema_behind,
  validate_schema_state, validate_schema_state_iff,
}

-- The row of the session query; `statement_timeout_matches` is the server's comparison with the
-- milliseconds of the configuration.
pub record SessionRow : Type 0 where
  pub timezone : String
  pub session_user : String
  pub current_role : String
  pub statement_timeout_matches : Bool
  pub tls_active : Bool

-- The answer to a query of the schema's state.
pub data SchemaRow : Type 0 where
  row : ℤ → Bool → SchemaRow
  no_rows : SchemaRow
  query_failed : SchemaRow

-- `none` is an error of the query.
pub record Answers : Type 0 where
  pub acquires : Bool
  pub session : Option SessionRow
  pub schema_exists : Option Bool
  pub schema_row : SchemaRow
  pub pings : Bool

abbrev pub bool_eqb : Bool → Bool → Bool
bool_eqb true b = b
bool_eqb false b = not b

unfoldable pub session_safe : DatabaseConfig → SessionRow → Bool
session_safe config session = not (
    not (session.session_user == config.user)
    || not (session.current_role == config.role)
    || not session.statement_timeout_matches
    || not (bool_eqb session.tls_active (config.tls_mode == tls_verify_full)))

unfoldable pub check_session : DatabaseConfig → Option SessionRow → Result DatabaseError (Unit {0})
check_session config none = err database_unavailable
check_session config (some session) = do
  reject (not (session.timezone == "UTC")) database_timezone
  reject (not (session_safe config session)) database_session

abbrev pub check_schema_row : SchemaRow → Result DatabaseError (Unit {0})
check_schema_row (row version dirty) = validate_schema_state version dirty
check_schema_row no_rows = err schema_behind
check_schema_row query_failed = err database_unavailable

unfoldable pub check_schema : Option Bool → SchemaRow → Result DatabaseError (Unit {0})
check_schema none answer = err database_unavailable
check_schema (some false) answer = err schema_behind
check_schema (some true) answer = check_schema_row answer

-- The connections of a pool that are in use.
unfoldable pub check : DatabaseConfig → Answers → ℕ → Result DatabaseError (Unit {0}) × ℕ
check config answers in_use =
    if answers.acquires
    then released
        (check_session config answers.session
          >> check_schema answers.schema_exists answers.schema_row)
        (suc in_use)
    else (err database_unavailable, in_use)
  where
    released : Result DatabaseError (Unit {0}) → ℕ → Result DatabaseError (Unit {0}) × ℕ
    released outcome acquired = (outcome, acquired - 1)

unfoldable pub ping : Answers → Result DatabaseError (Unit {0})
ping answers = reject (not answers.pings) database_unavailable

-- A session that the program may use: in UTC, of the configured user and role, with the configured
-- timeout, and with TLS exactly where the configuration verifies it.
pub record SafeSession (config : DatabaseConfig) (session : SessionRow) : Type 0 where
  pub utc : session.timezone ≡ "UTC"
  pub user : session.session_user ≡ config.user
  pub role : session.current_role ≡ config.role
  pub timeout : session.statement_timeout_matches ≡ true
  pub tls : (session.tls_active ≡ true) ↔ (config.tls_mode ≡ tls_verify_full)

check_session_sound :
    (config : DatabaseConfig) (session : SessionRow)
    → check_session config (some session) ≡ ok tt
    → SafeSession config session
unfolding check_session session_safe
check_session_sound config session h = record {
  utc = ground (arith, eq_iff session.timezone "UTC");
  user = ground (arith, eq_iff session.session_user config.user);
  role = ground (arith, eq_iff session.current_role config.role);
  timeout = ground arith;
  tls = ground (arith, eq_iff config.tls_mode tls_verify_full);
}

schema_row_of :
    (answer : SchemaRow) → check_schema_row answer ≡ ok tt → answer ≡ row (pos 20260801000000) false
schema_row_of (row version dirty) h = ground (arith, validate_schema_state_iff version dirty)
schema_row_of no_rows h = cc
schema_row_of query_failed h = cc

-- Whatever Check returns, it leaves as many connections in use as it found.
pub check_released :
    (config : DatabaseConfig) (answers : Answers) (in_use : ℕ)
    → (check config answers in_use).1 ≡ in_use
unfolding check
check_released config answers in_use = ground arith

-- Check succeeds only over a connection whose session is in UTC, belongs to the configured user and
-- role, has the configured statement timeout and uses TLS exactly in mode verify-full, and on a
-- schema that is not dirty and at the version that the binary supports; it then leaves as many
-- connections in use as it found.
pub check_sound :
    (config : DatabaseConfig) (answers : Answers) (in_use : ℕ)
    → (check config answers in_use).0 ≡ ok tt
    → ((check config answers in_use).1 ≡ in_use)
      × (answers.acquires ≡ true)
      × ((session : SessionRow) × (answers.session ≡ some session) × SafeSession config session)
      × (answers.schema_exists ≡ some true)
      × (answers.schema_row ≡ row (pos 20260801000000) false)
unfolding check check_schema check_session
check_sound config answers in_use h =
    let (session, s) = is_some-some answers.session (λ e. ground arith) in
    (
      check_released config answers in_use,
      ground arith,
      (session, s, check_session_sound config session (ground arith)),
      ground arith,
      schema_row_of answers.schema_row (ground arith),
    )
