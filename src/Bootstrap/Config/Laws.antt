-- ===== src/Bootstrap/Config/Laws.antt =====
-- What each section's parser accepts, and that none of them dereferences nil.
use accountable.Prelude.{
  String, Bool, true, false, ◌≡◌, ◌≢◌, ◌⊎◌, inl, inr, refl, ◌<◌, ◌==◌, Bool-cases, some, ok, err,
  eq_iff, is_some, if◌then◌else◌, arith,
}
use accountable.Go.{Duration, Parsers, IsPositive, IsWithin}
use accountable.Text.Paths.{is_abs, clean, join_paths, dir}
use accountable.Text.Patterns.{postgres_identifier}
use accountable.Secret.Ref.{parse_ref}
use accountable.Secret.Ref.Laws.{parse_ref_sound}
use accountable.Database.Config.{DatabaseConfig, tls_disable, tls_verify_full}
use accountable.Bootstrap.Config.{
  Capabilities, TimeConfig, DatabaseFile, TimeFile, FileConfig, time_provider_system,
  time_provider_linux,
}
use accountable.Bootstrap.Config.Failure.{nil_dereference, absolute_from, parse_positive_duration}
use accountable.Bootstrap.Config.CapabilityChecks.{parse_capabilities}
use accountable.Bootstrap.Config.Sections.{parse_database, parse_time}

-- The sections of the file and its capabilities agree, and the capabilities that are not there yet
-- are off.
pub record Agrees (raw : FileConfig) (c : Capabilities) : Type 0 where
  pub architecture_probe : raw.capabilities.architecture_probe ≡ some c.architecture_probe
  pub given :
      (raw.capabilities.postgres ≡ some c.postgres)
      × (raw.capabilities.secrets ≡ some c.secrets)
      × (raw.capabilities.kms ≡ some c.kms)
      × (raw.capabilities.object_storage ≡ some c.object_storage)
  pub postgres : is_some raw.postgres ≡ c.postgres
  pub secrets : is_some raw.secrets ≡ c.secrets
  pub kms : is_some raw.kms ≡ c.kms
  pub object_storage : is_some raw.object_storage ≡ c.object_storage
  pub telemetry : raw.capabilities.telemetry ≡ some false
  pub redpanda : raw.capabilities.redpanda ≡ some false
  pub time : is_some raw.time ≡ true

pub parse_capabilities-Agrees :
    (raw : FileConfig) (c : Capabilities) → parse_capabilities raw ≡ ok c → Agrees raw c
unfolding parse_capabilities
parse_capabilities-Agrees raw c h = ground arith

pub parse_capabilities-ne-nil : (raw : FileConfig) → parse_capabilities raw ≢ err nil_dereference
unfolding parse_capabilities
parse_capabilities-ne-nil raw h = ground arith

pub parse_positive_duration-IsPositive :
    (go : Parsers) (field value : String) (d : Duration)
    → parse_positive_duration go field value ≡ ok d
    → IsPositive d × (go.parse_duration value ≡ some d)
unfolding parse_positive_duration
parse_positive_duration-IsPositive go field value d h = ground arith

pub parse_positive_duration-ne-nil :
    (go : Parsers) (field value : String)
    → parse_positive_duration go field value ≢ err nil_dereference
unfolding parse_positive_duration
parse_positive_duration-ne-nil go field value h = ground arith

-- A path of the file, where a relative one is taken from the directory of the file.
abbrev pub IsResolved : String → String → String → Type 0
IsResolved config_path value path =
    ((is_abs value ≡ true) × (path ≡ clean value))
    ⊎ ((is_abs value ≡ false) × (path ≡ join_paths (dir config_path) value))

pub absolute_from-IsResolved :
    (config_path value : String)
    → IsResolved config_path value (absolute_from (dir config_path) value)
unfolding absolute_from
absolute_from-IsResolved config_path value = elim (Bool-cases (is_abs value)) [
  | inl rooted ↦ inl (rooted, rw rooted refl)
  | inr relative ↦ inr (relative, rw relative refl)
]

-- A positive duration that a text of the file is parsed as.
abbrev pub IsParsed : Parsers → String → Duration → Type 0
IsParsed go text d = IsPositive d × (go.parse_duration text ≡ some d)

-- An accepted database section.
pub record SafeDatabase (go : Parsers) (managed : Bool) (config_path : String) (raw : DatabaseFile)
    (c : DatabaseConfig) : Type 0 where
  pub same : c ≡ record {
    host = raw.host;
    port = raw.port;
    name = raw.name;
    user = raw.user;
    role = raw.role;
    password_ref = raw.password_ref;
    tls_mode = raw.tls_mode;
    tls_root_ca_file = c.tls_root_ca_file;
    connect_timeout = c.connect_timeout;
    statement_timeout = c.statement_timeout;
    health_check_interval = c.health_check_interval;
    max_connections = raw.max_connections;
    timezone = raw.timezone;
  }
  pub tls_root_ca_file :
      ((raw.tls_root_ca_file ≡ "") × (c.tls_root_ca_file ≡ ""))
      ⊎ ((raw.tls_root_ca_file ≢ "")
          × IsResolved config_path raw.tls_root_ca_file c.tls_root_ca_file)
  pub host : c.host ≢ ""
  pub port : 0 < c.port
  pub name : c.name ≢ ""
  pub user : postgres_identifier c.user ≡ true
  pub role : postgres_identifier c.role ≡ true
  pub password_ref : parse_ref c.password_ref ≡ ok c.password_ref
  pub tls_mode : c.tls_mode ≡ (if managed then tls_verify_full else tls_disable)
  pub connect_timeout : IsParsed go raw.connect_timeout c.connect_timeout
  pub statement_timeout : IsParsed go raw.statement_timeout c.statement_timeout
  pub health_check_interval : IsParsed go raw.health_check_interval c.health_check_interval
  pub max_connections : IsWithin 1 128 c.max_connections
  pub timezone : c.timezone ≡ "UTC"

pub parse_database-SafeDatabase :
    (go : Parsers) (managed : Bool) (config_path : String) (raw : DatabaseFile) (c : DatabaseConfig)
    → parse_database go managed config_path raw ≡ ok c
    → SafeDatabase go managed config_path raw c
unfolding parse_database
parse_database-SafeDatabase go managed config_path raw c h = record {
  same = ground (arith, parse_ref_sound raw.password_ref c.password_ref);
  tls_root_ca_file = elim (Bool-cases (raw.tls_root_ca_file == "")) [
    | inl unset ↦ inl ((eq_iff raw.tls_root_ca_file "").0 unset, ground arith)
    | inr named ↦
        let found : c.tls_root_ca_file ≡ absolute_from (dir config_path) raw.tls_root_ca_file =
          ground arith in
        inr (
          ground (arith, eq_iff raw.tls_root_ca_file ""),
          rw found (absolute_from-IsResolved config_path raw.tls_root_ca_file),
        )
  ];
  host = ground (arith, eq_iff raw.host "");
  port = ground arith;
  name = ground (arith, eq_iff raw.name "");
  user = ground arith;
  role = ground arith;
  password_ref = ground (arith, parse_ref_sound raw.password_ref c.password_ref);
  tls_mode = ground (arith, eq_iff raw.tls_mode tls_verify_full, eq_iff raw.tls_mode tls_disable);
  connect_timeout = ground (
    arith,
    parse_positive_duration-IsPositive go "database.connect_timeout" raw.connect_timeout
        c.connect_timeout,
  );
  statement_timeout = ground (
    arith,
    parse_positive_duration-IsPositive go "database.statement_timeout" raw.statement_timeout
        c.statement_timeout,
  );
  health_check_interval = ground (
    arith,
    parse_positive_duration-IsPositive go "database.health_check_interval" raw.health_check_interval
        c.health_check_interval,
  );
  max_connections = ground arith;
  timezone = ground (arith, eq_iff raw.timezone "UTC");
}

pub parse_database-ne-nil :
    (go : Parsers) (managed : Bool) (config_path : String) (raw : DatabaseFile)
    → parse_database go managed config_path raw ≢ err nil_dereference
unfolding parse_database
parse_database-ne-nil go managed config_path raw h = ground (
  arith,
  parse_positive_duration-ne-nil go "database.connect_timeout" raw.connect_timeout,
  parse_positive_duration-ne-nil go "database.statement_timeout" raw.statement_timeout,
  parse_positive_duration-ne-nil go "database.health_check_interval" raw.health_check_interval,
)

pub record SafeTime (go : Parsers) (managed : Bool) (raw : TimeFile) (c : TimeConfig) : Type 0 where
  pub same : c.provider ≡ raw.provider
  pub provider : c.provider ≡ (if managed then time_provider_linux else time_provider_system)
  pub max_clock_error : IsParsed go raw.max_clock_error c.max_clock_error
  pub max_database_skew : IsParsed go raw.max_database_skew c.max_database_skew

pub parse_time-SafeTime :
    (go : Parsers) (managed : Bool) (raw : TimeFile) (c : TimeConfig)
    → parse_time go managed raw ≡ ok c
    → SafeTime go managed raw c
unfolding parse_time
parse_time-SafeTime go managed raw c h = ground (
  arith,
  eq_iff raw.provider time_provider_linux,
  eq_iff raw.provider time_provider_system,
  parse_positive_duration-IsPositive go "time.max_clock_error" raw.max_clock_error
      c.max_clock_error,
  parse_positive_duration-IsPositive go "time.max_database_skew" raw.max_database_skew
      c.max_database_skew,
)

pub parse_time-ne-nil :
    (go : Parsers) (managed : Bool) (raw : TimeFile)
    → parse_time go managed raw ≢ err nil_dereference
unfolding parse_time
parse_time-ne-nil go managed raw h = ground (
  arith,
  parse_positive_duration-ne-nil go "time.max_clock_error" raw.max_clock_error,
  parse_positive_duration-ne-nil go "time.max_database_skew" raw.max_database_skew,
)
