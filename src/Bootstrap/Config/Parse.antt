-- ===== src/Bootstrap/Config/Parse.antt =====
-- Parse of internal/bootstrap/config.go.
use accountable.Prelude.{
  String, Bool, not, ◌&&◌, Option, Result, ok, ◌>>=◌, ◌>>◌, ◌==◌, if◌then◌else◌,
}
use accountable.Go.{pos, Parsers, int_eqb}
use accountable.Text.Patterns.{configuration_revision_pattern, cell_id_pattern, aws_region_pattern}
use accountable.Database.Config.{DatabaseConfig}
use accountable.Bootstrap.Config.{
  Capabilities, Config, FileConfig, runtime_role_api, runtime_role_migrate, runtime_role_preflight,
  deployment_mode_local, deployment_mode_managed,
}
use accountable.Bootstrap.Config.Failure.{Failure, refuse, dereference, parse_positive_duration}
use accountable.Bootstrap.Config.CapabilityChecks.{parse_capabilities}
use accountable.Bootstrap.Config.Sections.{empty_secrets, parse_secrets, parse_database, parse_time}
use accountable.Bootstrap.Config.Stores.{empty_storage, empty_crypto, parse_storage, parse_crypto}

abbrev pub is_managed : FileConfig → Bool
is_managed raw = raw.deployment_mode == deployment_mode_managed

-- The checks before the capabilities are read.
unfoldable pub check_header : FileConfig → Result Failure (Unit {0})
check_header raw = do
  refuse (not (int_eqb raw.schema_version (pos 1))) "schema_version must be 1"
  refuse (not (configuration_revision_pattern raw.revision))
      "revision must be 1 to 128 characters using only letters, digits, '.', '_', or '-'"
  refuse
      (not (raw.environment == "development")
        && not (raw.environment == "staging")
        && not (raw.environment == "production"))
      "environment must be development, staging, or production"
  refuse
      (not (raw.deployment_mode == deployment_mode_local)
        && not (raw.deployment_mode == deployment_mode_managed))
      "deployment_mode must be local or managed"
  refuse (not (raw.environment == "development") && not (is_managed raw))
      "staging and production deployment_mode must be managed"
  refuse (not (cell_id_pattern raw.cell_id)) "cell_id must be 1 to 64 opaque identifier characters"
  refuse (not (aws_region_pattern raw.aws_region)) "aws_region is invalid"
  refuse
      (not (raw.runtime_role == runtime_role_api)
        && not (raw.runtime_role == runtime_role_migrate)
        && not (raw.runtime_role == runtime_role_preflight))
      "runtime_role must be api, migrate, or preflight"

-- The checks between the capabilities and the durations.
unfoldable pub check_requirements : FileConfig → Capabilities → Result Failure (Unit {0})
check_requirements raw capabilities = do
  refuse (raw.environment == "production" && capabilities.architecture_probe)
      "production preflight: capabilities.architecture_probe must be false"
  refuse (capabilities.postgres && not capabilities.secrets)
      "capabilities.postgres requires capabilities.secrets"
  refuse (not (is_managed raw) && capabilities.kms && not capabilities.secrets)
      "local capabilities.kms requires capabilities.secrets"

-- var config; if enabled { config, err = parseSection(*section) }
unfoldable pub parse_enabled :
    {A B : Type 0} → Bool → Option A → B → (A → Result Failure B) → Result Failure B
parse_enabled enabled section empty parse_section =
    if enabled then (do raw ← dereference section; parse_section raw) else ok empty

abbrev pub empty_database : DatabaseConfig
empty_database = record {
  host = "";
  port = 0;
  name = "";
  user = "";
  role = "";
  password_ref = "";
  tls_mode = "";
  tls_root_ca_file = "";
  connect_timeout = pos 0;
  statement_timeout = pos 0;
  health_check_interval = pos 0;
  max_connections = pos 0;
  timezone = "";
}

module _ (go : Parsers) where
  unfoldable pub parse : String → String → FileConfig → Result Failure Config
  parse config_path fingerprint raw = do
    let managed = is_managed raw
    check_header raw
    capabilities ← parse_capabilities raw
    check_requirements raw capabilities
    check_timeout ← parse_positive_duration go "foundation_check_timeout" raw.check_timeout
    readiness_probe_interval ←
        parse_positive_duration go "readiness_probe_interval" raw.readiness_probe_interval
    secrets ←
        parse_enabled capabilities.secrets raw.secrets empty_secrets
          (parse_secrets go raw.environment managed raw.aws_region config_path)
    database ←
        parse_enabled capabilities.postgres raw.postgres empty_database
          (parse_database go managed config_path)
    storage ←
        parse_enabled capabilities.object_storage raw.object_storage empty_storage
          (parse_storage managed raw.aws_region config_path)
    crypto ←
        parse_enabled capabilities.kms raw.kms empty_crypto (parse_crypto managed raw.aws_region)
    time_file ← dereference raw.time
    time ← parse_time go managed time_file
    ok (record {
      schema_version = raw.schema_version;
      revision = raw.revision;
      environment = raw.environment;
      deployment_mode = raw.deployment_mode;
      cell_id = raw.cell_id;
      aws_region = raw.aws_region;
      runtime_role = raw.runtime_role;
      fingerprint = fingerprint;
      capabilities = capabilities;
      check_timeout = check_timeout;
      readiness_probe_interval = readiness_probe_interval;
      secrets = secrets;
      database = database;
      storage = storage;
      crypto = crypto;
      time = time;
    })
