-- ===== src/Tests/Binaries.antt =====
-- The loaders of the binaries on an accepted command line.
use accountable.Prelude.{◌*◌, String, true, false, ◌≡◌, refl, some, List, [], ◌∷◌, ok}
use accountable.Go.{pos, second}
use accountable.Text.{has_prefix, trim_suffix, split}
use accountable.Text.Paths.{is_abs, clean, clean_parts, render, join_paths, dir}
use accountable.Text.Patterns.{
  configuration_revision_pattern, cell_id_pattern, aws_region_pattern, postgres_identifier,
}
use accountable.Bootstrap.Config.{runtime_role_api}
use accountable.Bootstrap.Config.Failure.{parse_positive_duration, absolute_from}
use accountable.Secret.Ref.{parse_ref, secret_ref_pattern}
use accountable.Bootstrap.Config.CapabilityChecks.{parse_capabilities}
use accountable.Bootstrap.Config.Sections.{parse_secrets, parse_database, parse_time}
use accountable.Bootstrap.Config.Stores.{parse_crypto}
use accountable.Bootstrap.Config.Parse.{parse, check_header, check_requirements, parse_enabled}
use accountable.Appconfig.{ServerFile, ApiFile, Api, Libraries}
use accountable.Appconfig.Load.{
  absolute_path, validate_allowed_origins, parse_cidrs, check_tls, parse_server, parse_api,
  decode_with_fingerprint, check_role, load_runtime, load_api, load_foundation,
}
use accountable.Appconfig.Servable.{Servable}
use accountable.Appconfig.Laws.{Loaded, load_api_sound, load_foundation_sound}
use accountable.Appconfig.Web.{
  WebRuntime, WebRuntimeFile, Publishable, validate_api_base_url, load_web_runtime,
  load_web_runtime_sound,
}
use accountable.Tests.Configs.{parsers, file_config, config}

abbrev server : ServerFile
server = record {
  listen_address = ":8443";
  allowed_origins = some ("https://app.example" ∷ []);
  trusted_proxy_cidrs = some ("10.0.0.0/8" ∷ []);
  tls_certificate = "/tls/cert.pem";
  tls_private_key = "/tls/key.pem";
  unary_rpc_timeout = "5s";
  stream_rpc_timeout = "5s";
}

abbrev libraries : Libraries String
libraries = record {
  go = parsers;
  split_host_port = λ address. ok ("", "8443");
  load_key_pair = λ certificate key. true;
  parse_cidr = λ value. ok value;
  read_file = λ path. ok "contents";
  decode_api_file = λ contents. ok (record { file_config = file_config; server = some server });
  sha256_hex = λ contents. "f";
}

abbrev arguments : List String
arguments = "--config" ∷ "/etc/app/config.toml" ∷ []

abbrev raw_file : ApiFile
raw_file = record { file_config = file_config; server = some server }

abbrev api : Api String
api = record {
  addr = ":8443";
  environment = "development";
  architecture_probe = true;
  allowed_origins = "https://app.example" ∷ [];
  trusted_proxies = "10.0.0.0/8" ∷ [];
  tls_cert_file = "/tls/cert.pem";
  tls_key_file = "/tls/key.pem";
  unary_rpc_deadline = pos (5 * second);
  stream_rpc_deadline = pos (5 * second);
  foundation = config;
}

served : parse_server libraries server config ≡ ok api
unfolding parse_server validate_allowed_origins parse_cidrs check_tls is_abs has_prefix
    parse_positive_duration
served = refl

runtime_loaded : load_runtime libraries arguments "api" ≡ ok (raw_file, config)
unfolding load_runtime absolute_path decode_with_fingerprint check_role parse check_header
    configuration_revision_pattern cell_id_pattern aws_region_pattern parse_capabilities
    check_requirements parse_positive_duration parse_enabled parse_secrets absolute_from join_paths
    clean render clean_parts dir postgres_identifier split parse_ref secret_ref_pattern is_abs
    has_prefix parse_database parse_crypto parse_time
runtime_loaded = refl

loaded : load_api libraries arguments ≡ ok api
unfolding load_api parse_api
loaded = rw runtime_loaded served

load_api_sound_example :
    (raw : ApiFile) × (server : ServerFile) × Loaded libraries arguments runtime_role_api raw
      api.foundation
    × (api.foundation.runtime_role ≡ runtime_role_api)
    × (raw.server ≡ some server)
    × Servable libraries server api.foundation api
load_api_sound_example = load_api_sound libraries arguments api loaded

foundation_loaded : load_foundation libraries arguments "api" ≡ ok config
unfolding load_foundation
foundation_loaded = rw runtime_loaded refl

load_foundation_sound_example :
    (raw : ApiFile) × Loaded libraries arguments "api" raw config
    × (runtime_role_api ≡ ""
        → config.runtime_role ≡ runtime_role_api
        → (server : ServerFile) × (c : Api String) × (raw.server ≡ some server)
          × Servable libraries server config c)
load_foundation_sound_example =
    load_foundation_sound libraries arguments "api" config foundation_loaded

abbrev web_file : WebRuntimeFile
web_file = record {
  environment = "production";
  api_base_url = "https://app.example";
  architecture_probe = some false;
}

abbrev web_runtime : WebRuntime
web_runtime = record {
  environment = "production";
  api_base_url = "https://app.example";
  architecture_probe = false;
  configuration_revision = "r1";
}

web_loaded : load_web_runtime parsers (ok web_file) "r1" ≡ ok web_runtime
unfolding load_web_runtime validate_api_base_url trim_suffix configuration_revision_pattern
web_loaded = refl

load_web_runtime_sound_example : Publishable parsers web_file "r1" web_runtime
load_web_runtime_sound_example = load_web_runtime_sound parsers web_file "r1" web_runtime web_loaded
