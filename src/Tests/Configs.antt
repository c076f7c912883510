-- ===== src/Tests/Configs.antt =====
-- A local development configuration, and what holds of it.
use accountable.Prelude.{
  ℕ, ◌*◌, String, true, false, ◌≡◌, ◌≢◌, ◌↔◌, refl, Option, none, some, [], ◌∷◌, ◌++◌, All, ok, err,
  ◌==◌, if◌then◌else◌,
}
use accountable.Maps.{lookup}
use accountable.Go.{pos, Duration, Url, Parsers, second}
use accountable.Text.{split, has_prefix}
use accountable.Text.Patterns.{
  configuration_revision_pattern, cell_id_pattern, aws_region_pattern, postgres_identifier,
}
use accountable.Text.Paths.{is_abs, render, clean_parts, clean, join_paths, dir}
use accountable.Text.Paths.Clean.{IsSegment}
use accountable.Secret.Ref.{SecretConfig, parse_ref, secret_ref_pattern}
use accountable.Secret.Ref.Laws.{parse_ref_iff, join_paths-parse_ref}
use accountable.Crypto.Config.{CryptoConfig}
use accountable.Bootstrap.Config.{Config, DatabaseFile, FileConfig}
use accountable.Bootstrap.Config.Failure.{nil_dereference, absolute_from, parse_positive_duration}
use accountable.Bootstrap.Config.CapabilityChecks.{parse_capabilities}
use accountable.Bootstrap.Config.Sections.{empty_secrets, parse_secrets, parse_database, parse_time}
use accountable.Bootstrap.Config.Stores.{empty_storage, empty_crypto, parse_crypto}
use accountable.Bootstrap.Config.Parse.{parse, check_header, check_requirements, parse_enabled}
use accountable.Bootstrap.Config.Safe.{IsSafe}
use accountable.Bootstrap.Config.Safety.{parse-IsSafe, parse-ne-nil}
use accountable.Bootstrap.Dependencies.{
  Failed, Platform, Dependencies, system_health, build, build_base, build_rest, build_crypto,
  key_path, check, finish, time_health_of, preflight, nil_interface,
}
use accountable.Bootstrap.Dependencies.Safety.{Complete, build-Complete, build-balanced}
use accountable.Bootstrap.Dependencies.NilInterfaces.{build-of-parse}

abbrev duration_table : String → Option Duration
duration_table s = if s == "5s" then some (pos (5 * second)) else none

abbrev url_table : String → Option Url
url_table s =
    if s == "https://app.example"
    then some (record {
      scheme = "https";
      host = "app.example";
      has_user = false;
      path = "";
      raw_query = "";
      fragment = "";
      text = "https://app.example";
    })
    else none

abbrev pub parsers : Parsers
parsers = record { parse_duration = duration_table; parse_url = url_table }

abbrev secrets_section : SecretConfig
secrets_section = record empty_secrets { provider = "file"; directory = "secrets" }

abbrev postgres_section : DatabaseFile
postgres_section = record {
  host = "localhost";
  port = 5432;
  name = "app";
  user = "app";
  role = "app_rw";
  password_ref = "db/password";
  tls_mode = "disable";
  tls_root_ca_file = "";
  connect_timeout = "5s";
  statement_timeout = "5s";
  health_check_interval = "5s";
  max_connections = pos 8;
  timezone = "UTC";
}

abbrev kms_section : CryptoConfig
kms_section = record empty_crypto {
  provider = "local";
  key_ref = "kms/key";
  encryption_context_prefix = "app";
}

abbrev pub file_config : FileConfig
file_config = record {
  schema_version = pos 1;
  revision = "r1";
  environment = "development";
  deployment_mode = "local";
  cell_id = "cell";
  aws_region = "eu-west-2";
  runtime_role = "api";
  capabilities = record {
    architecture_probe = some true;
    postgres = some true;
    secrets = some true;
    kms = some true;
    object_storage = some false;
    telemetry = some false;
    redpanda = some false;
  };
  secrets = some secrets_section;
  postgres = some postgres_section;
  object_storage = none;
  kms = some kms_section;
  time = some (record { provider = "system"; max_clock_error = "5s"; max_database_skew = "5s" });
  check_timeout = "5s";
  readiness_probe_interval = "5s";
}

abbrev pub config : Config
config = record {
  schema_version = pos 1;
  revision = "r1";
  environment = "development";
  deployment_mode = "local";
  cell_id = "cell";
  aws_region = "eu-west-2";
  runtime_role = "api";
  fingerprint = "f";
  capabilities = record {
    architecture_probe = true;
    postgres = true;
    secrets = true;
    kms = true;
    object_storage = false;
  };
  check_timeout = pos (5 * second);
  readiness_probe_interval = pos (5 * second);
  secrets = record empty_secrets { provider = "file"; directory = "/etc/app/secrets" };
  database = record {
    host = "localhost";
    port = 5432;
    name = "app";
    user = "app";
    role = "app_rw";
    password_ref = "db/password";
    tls_mode = "disable";
    tls_root_ca_file = "";
    connect_timeout = pos (5 * second);
    statement_timeout = pos (5 * second);
    health_check_interval = pos (5 * second);
    max_connections = pos 8;
    timezone = "UTC";
  };
  storage = empty_storage;
  crypto = kms_section;
  time = record {
    provider = "system";
    max_clock_error = pos (5 * second);
    max_database_skew = pos (5 * second);
  };
}

pub parsed : parse parsers "/etc/app/config.toml" "f" file_config ≡ ok config
unfolding parse check_header configuration_revision_pattern cell_id_pattern aws_region_pattern
    parse_capabilities check_requirements parse_positive_duration parse_enabled parse_secrets
    absolute_from join_paths clean render clean_parts dir postgres_identifier split parse_ref
    secret_ref_pattern is_abs has_prefix parse_database parse_crypto parse_time
parsed = refl

parse-IsSafe_example : IsSafe parsers "/etc/app/config.toml" "f" file_config config
parse-IsSafe_example = parse-IsSafe parsers "/etc/app/config.toml" "f" file_config config parsed

parse-ne-nil_example : parse parsers "" "" file_config ≢ err nil_dereference
parse-ne-nil_example = parse-ne-nil parsers "" "" file_config

parse_ref_iff_example :
    (parse_ref "db/password" ≡ ok "db/password")
    ↔ ((secret_ref_pattern "db/password" ≡ true) × All IsSegment (split "/" "db/password"))
parse_ref_iff_example = parse_ref_iff "db/password"

ref_parsed : parse_ref "db/password" ≡ ok "db/password"
unfolding parse_ref secret_ref_pattern clean render clean_parts split is_abs has_prefix
ref_parsed = refl

root_is_abs : is_abs "/etc/../run" ≡ true
unfolding is_abs has_prefix
root_is_abs = refl

join_paths-parse_ref_example :
    join_paths "/etc/../run" "db/password"
    ≡ render true (clean_parts "/etc/../run" ++ split "/" "db/password")
join_paths-parse_ref_example =
    join_paths-parse_ref "/etc/../run" "db/password" "db/password" root_is_abs ref_parsed

-- A platform on which every call succeeds.
abbrev platform : Platform String Unit Unit Unit Unit Unit
platform = record {
  check_health = λ start h. ok tt;
  new_source = λ c. ok tt;
  resolve_batch = λ r refs. ok (("kms/key", "k") ∷ []);
  open_database = λ c r. ok tt;
  load_aws_config = λ region. ok tt;
  new_file_storage = λ root. ok tt;
  new_s3_storage = λ c a. tt;
  new_local_crypto = λ key path. ok tt;
  new_aws_crypto = λ c a. ok tt;
  bootstrap_probe = record { enabled = false; defaulted = true };
  check_database = λ d. ok tt;
  check_clock = λ d skew. ok tt;
  check_storage = λ s. ok tt;
  check_crypto = λ c. ok tt;
  ping_database = λ d. ok tt;
  probe_storage = λ s. ok tt;
  probe_crypto = λ c. ok tt;
}

abbrev dependencies : Dependencies Unit Unit Unit
dependencies = record {
  database = some tt;
  storage = none;
  crypto = some tt;
  bootstrap_flag = record { enabled = false; defaulted = true };
  time_health = system_health;
  maximum_db_skew = pos (5 * second);
}

built : build platform config 2 ≡ (3, ok dependencies)
unfolding build build_base build_rest build_crypto key_path check finish time_health_of lookup
built = refl

build-Complete_example : Complete platform config dependencies
build-Complete_example = build-Complete platform config 2 3 dependencies built

build-balanced_example :
    ((preflight platform config 2).0 ≡ 2)
    × ((after : ℕ) (e : Failed String) → build platform config 2 ≡ (after, err e) → after ≡ 2)
build-balanced_example = build-balanced platform config 2

build-of-parse_example : (build platform config 2).1 ≢ err nil_interface
build-of-parse_example =
    build-of-parse platform parsers "/etc/app/config.toml" "f" file_config config parsed 2
