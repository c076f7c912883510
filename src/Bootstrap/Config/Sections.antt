-- ===== src/Bootstrap/Config/Sections.antt =====
-- parseSecrets, parseDatabase and parseTime of internal/bootstrap/config.go.
use Prim.Native.String.{◌++◌ as concat}
use accountable.Prelude.{
  String, Bool, true, not, ◌&&◌, ◌||◌, Option, none, some, Result, ok, ◌>>=◌, ◌>>◌, ◌==◌, eqb,
  if◌then◌else◌,
}
use accountable.Go.{pos, Url, Parsers, int_ltb}
use accountable.Text.{has_prefix}
use accountable.Text.Paths.{clean, dir}
use accountable.Text.Patterns.{postgres_identifier, aws_region_pattern}
use accountable.Secret.Ref.{
  SecretConfig, provider_file, provider_infisical, auth_aws_iam, infisical_cloud_eu_endpoint,
  parse_ref,
}
use accountable.Database.Config.{DatabaseConfig, tls_disable, tls_verify_full}
use accountable.Bootstrap.Config.{
  TimeConfig, DatabaseFile, TimeFile, time_provider_system, time_provider_linux,
}
use accountable.Bootstrap.Config.Failure.{
  Failure, wrap, refuse, absolute_from, parse_positive_duration,
}

-- The value that a Go struct has before its fields are set.
abbrev pub empty_secrets : SecretConfig
empty_secrets = record {
  provider = "";
  directory = "";
  site_url = "";
  aws_region = "";
  project_id = "";
  environment = "";
  secret_path = "";
  auth_method = "";
  machine_identity_id = "";
}

-- err != nil || parsedURL.String() != infisicalCloudEUEndpoint
unfoldable pub other_endpoint : Option Url → Bool
other_endpoint none = true
other_endpoint (some url) = not (url.text == infisical_cloud_eu_endpoint)

parse_local_secrets : String → SecretConfig → Result Failure SecretConfig
parse_local_secrets config_path raw = do
  refuse (not (raw.provider == provider_file) || raw.directory == "")
      "local secrets.provider must be file with a directory"
  refuse
      (not (raw.site_url == "")
        || not (raw.aws_region == "")
        || not (raw.project_id == "")
        || not (raw.environment == "")
        || not (raw.secret_path == "")
        || not (raw.auth_method == "")
        || not (raw.machine_identity_id == ""))
      "file secrets cannot include Infisical settings"
  ok (record empty_secrets {
    provider = raw.provider;
    directory = absolute_from (dir config_path) raw.directory;
  })

module _ (go : Parsers) where
  parse_managed_secrets : String → String → SecretConfig → Result Failure SecretConfig
  unfolding other_endpoint
  parse_managed_secrets environment aws_region raw = do
    refuse (not (raw.directory == "")) "infisical secrets cannot include a file directory"
    refuse (not (raw.provider == provider_infisical)) "managed secrets.provider must be infisical"
    refuse (other_endpoint (go.parse_url raw.site_url))
        "managed secrets.site_url must select Infisical Cloud EU"
    refuse (not (aws_region_pattern raw.aws_region)) "infisical aws_region is invalid"
    refuse (not (raw.aws_region == aws_region))
        "infisical aws_region must match the top-level aws_region"
    refuse (raw.project_id == "" || raw.environment == "" || raw.machine_identity_id == "")
        "infisical project_id, environment, and machine_identity_id are required"
    refuse (not (raw.environment == environment))
        "infisical environment must match the application environment"
    refuse (not (raw.auth_method == auth_aws_iam)) "infisical auth_method must be aws_iam"
    refuse
        (raw.secret_path == ""
          || not (has_prefix raw.secret_path "/")
          || not (clean raw.secret_path == raw.secret_path))
        "infisical secret_path must be an absolute clean path"
    ok (record raw { directory = "" })

  unfoldable pub parse_secrets :
      String → Bool → String → String → SecretConfig → Result Failure SecretConfig
  unfolding parse_local_secrets parse_managed_secrets
  parse_secrets environment managed aws_region config_path raw =
      if not managed
      then parse_local_secrets config_path raw
      else parse_managed_secrets environment aws_region raw

  unfoldable pub parse_database : Bool → String → DatabaseFile → Result Failure DatabaseConfig
  parse_database managed config_path raw = do
    refuse (raw.host == "" || eqb raw.port 0 || raw.name == "")
        "database host, port, and name are required"
    refuse (not (postgres_identifier raw.user) || not (postgres_identifier raw.role))
        "database user and role must be PostgreSQL identifiers"
    password_ref ← wrap "database.password_ref" (parse_ref raw.password_ref)
    refuse (managed && not (raw.tls_mode == tls_verify_full))
        "managed database.tls_mode must be verify-full"
    refuse (not managed && not (raw.tls_mode == tls_disable))
        "local database.tls_mode must be disable"
    let root_ca =
        if not (raw.tls_root_ca_file == "")
        then absolute_from (dir config_path) raw.tls_root_ca_file
        else ""
    connect_timeout ← parse_positive_duration go "database.connect_timeout" raw.connect_timeout
    statement_timeout ←
        parse_positive_duration go "database.statement_timeout" raw.statement_timeout
    health_interval ←
        parse_positive_duration go "database.health_check_interval" raw.health_check_interval
    refuse (int_ltb raw.max_connections (pos 1) || int_ltb (pos 128) raw.max_connections)
        "database.max_connections must be between 1 and 128"
    refuse (not (raw.timezone == "UTC")) "database.timezone must be UTC"
    ok (record {
      host = raw.host;
      port = raw.port;
      name = raw.name;
      user = raw.user;
      role = raw.role;
      password_ref = password_ref;
      tls_mode = raw.tls_mode;
      tls_root_ca_file = root_ca;
      connect_timeout = connect_timeout;
      statement_timeout = statement_timeout;
      health_check_interval = health_interval;
      max_connections = raw.max_connections;
      timezone = raw.timezone;
    })

  unfoldable pub parse_time : Bool → TimeFile → Result Failure TimeConfig
  parse_time managed raw = do
    let want_provider = if managed then time_provider_linux else time_provider_system
    refuse (not (raw.provider == want_provider))
        (concat "time.provider must be " (concat want_provider " for this deployment mode"))
    max_clock_error ← parse_positive_duration go "time.max_clock_error" raw.max_clock_error
    max_database_skew ← parse_positive_duration go "time.max_database_skew" raw.max_database_skew
    ok (record {
      provider = raw.provider;
      max_clock_error = max_clock_error;
      max_database_skew = max_database_skew;
    })
