-- ===== src/Appconfig/Load.antt =====
-- internal/appconfig/api.go and AbsolutePath and DecodeWithFingerprint of
-- internal/configfile/configfile.go.
use Prim.Native.String.{◌++◌ as concat}
use accountable.Prelude.{
  ◌*◌, String, Bool, true, false, not, ◌&&◌, ◌||◌, Option, none, some, List, [], ◌∷◌, Result, ok,
  err, ◌>>=◌, ◌>>◌, ◌==◌, is_some,
}
use accountable.Go.{pos, Duration, Url, Parsers, int_ltb, second}
use accountable.Text.Paths.{is_abs, clean}
use accountable.Bootstrap.Config.{Config, runtime_role_api, runtime_role_migrate}
use accountable.Bootstrap.Config.Failure.{Failure, message, wrap, refuse, parse_positive_duration}
use accountable.Bootstrap.Config.Parse.{parse}
use accountable.Appconfig.{ServerFile, ApiFile, Api, Libraries}

abbrev pub http_write_timeout : Duration
http_write_timeout = pos (30 * second)

-- positiveDuration, the same function as bootstrap's parsePositiveDuration
abbrev pub positive_duration : Parsers → String → String → Result Failure Duration
positive_duration go field value = parse_positive_duration go field value

unfoldable pub absolute_path : List String → Result Failure String
absolute_path (flag ∷ path ∷ []) = do
  refuse (not (flag == "--config") || path == "") "usage: --config <absolute-path>"
  refuse (not (is_abs path)) "--config path must be absolute"
  ok (clean path)
absolute_path _ = err (message "usage: --config <absolute-path>")

-- the condition on a parsed origin; `none` is a failed url.Parse
unfoldable pub is_origin : Option Url → Bool
is_origin none = false
is_origin (some parsed) =
    not (parsed.host == "")
    && (parsed.scheme == "http" || parsed.scheme == "https")
    && not parsed.has_user
    && parsed.path == ""
    && parsed.raw_query == ""
    && parsed.fragment == ""

unfoldable pub is_https : Option Url → Bool
is_https none = false
is_https (some parsed) = parsed.scheme == "https"

unfoldable pub validate_allowed_origins : Parsers → String → List String → Result Failure (Unit {0})
unfolding is_origin is_https
validate_allowed_origins go environment [] = ok tt
validate_allowed_origins go environment (value ∷ values) = do
  refuse (not (is_origin (go.parse_url value)))
      "allowed_origins must contain absolute HTTP origins without credentials, paths, queries, or fragments"
  refuse (environment == "production" && not (is_https (go.parse_url value)))
      "production allowed_origins must use HTTPS"
  validate_allowed_origins go environment values

-- if slice == nil { return ..., errors.New(text) }
abbrev pub required : Option (List String) → String → Result Failure (List String)
required none text = err (message text)
required (some values) text = ok values

module _ {Network : Type 0} (lib : Libraries Network) where
  unfoldable pub parse_cidrs : List String → Result String (List Network)
  parse_cidrs [] = ok []
  parse_cidrs (value ∷ values) = do
    network ← lib.parse_cidr value
    networks ← parse_cidrs values
    ok (network ∷ networks)

  -- the checks of the TLS identity
  unfoldable pub check_tls : ServerFile → Result Failure (Unit {0})
  check_tls server = do
    refuse
        ((server.tls_certificate == "") && not (server.tls_private_key == "")
          || not (server.tls_certificate == "") && (server.tls_private_key == ""))
        "server.tls_certificate_file and server.tls_private_key_file must be configured together"
    refuse (not (server.tls_certificate == "") && not (is_abs server.tls_certificate))
        "server.tls_certificate_file must be an absolute path"
    refuse (not (server.tls_private_key == "") && not (is_abs server.tls_private_key))
        "server.tls_private_key_file must be an absolute path"
    refuse
        (not (server.tls_certificate == "")
          && not (lib.load_key_pair server.tls_certificate server.tls_private_key))
        "TLS identity is unavailable"

  -- parseAPI after the nil check of the section
  unfoldable pub parse_server : ServerFile → Config → Result Failure (Api Network)
  parse_server server foundation = do
    refuse (server.listen_address == "") "server.listen_address is required"
    _ ← wrap "server.listen_address" (lib.split_host_port server.listen_address)
    allowed_origins ← required server.allowed_origins "server.allowed_origins is required"
    validate_allowed_origins lib.go foundation.environment allowed_origins
    cidrs ← required server.trusted_proxy_cidrs "server.trusted_proxy_cidrs is required"
    check_tls server
    unary ← positive_duration lib.go "server.unary_rpc_timeout" server.unary_rpc_timeout
    stream ← positive_duration lib.go "server.stream_rpc_timeout" server.stream_rpc_timeout
    refuse (not (int_ltb unary http_write_timeout))
        "server.unary_rpc_timeout must be shorter than the HTTP write timeout"
    refuse (not (int_ltb stream http_write_timeout))
        "server.stream_rpc_timeout must be shorter than the HTTP write timeout"
    trusted ← wrap "server.trusted_proxy_cidrs" (parse_cidrs cidrs)
    ok (record {
      addr = server.listen_address;
      environment = foundation.environment;
      architecture_probe = foundation.capabilities.architecture_probe;
      allowed_origins = allowed_origins;
      trusted_proxies = trusted;
      tls_cert_file = server.tls_certificate;
      tls_key_file = server.tls_private_key;
      unary_rpc_deadline = unary;
      stream_rpc_deadline = stream;
      foundation = foundation;
    })

  unfoldable pub parse_api : ApiFile → Config → Result Failure (Api Network)
  parse_api raw foundation = elim raw.server [
    | none ↦ err (message "server section is required when runtime_role is api")
    | some server ↦ parse_server server foundation
  ]

  -- DecodeWithFingerprint of an API file
  unfoldable pub decode_with_fingerprint : String → Result Failure (ApiFile × String)
  decode_with_fingerprint path = do
    contents ← wrap "open config" (lib.read_file path)
    raw ← wrap "decode config" (lib.decode_api_file contents)
    ok (raw, lib.sha256_hex contents)

  -- loadRuntime after Parse
  unfoldable pub check_role : ApiFile → Config → String → Result Failure (Unit {0})
  check_role raw config expected_role = do
    refuse (not (expected_role == "") && not (config.runtime_role == expected_role))
        (concat "runtime_role must be " (concat expected_role " for this binary"))
    refuse
        (config.runtime_role == runtime_role_migrate
          && (not config.capabilities.secrets || not config.capabilities.postgres))
        "runtime_role migrate requires secrets and postgres capabilities"
    refuse (not (config.runtime_role == runtime_role_api) && is_some raw.server)
        "server section is only valid when runtime_role is api"

  unfoldable pub load_runtime : List String → String → Result Failure (ApiFile × Config)
  load_runtime args expected_role = do
    path ← absolute_path args
    decoded ← decode_with_fingerprint path
    config ← parse lib.go path decoded.1 decoded.0.file_config
    check_role decoded.0 config expected_role
    ok (decoded.0, config)

  unfoldable pub load_api : List String → Result Failure (Api Network)
  load_api args = do loaded ← load_runtime args runtime_role_api; parse_api loaded.0 loaded.1

  -- With no expected role, an API file's server section is checked too.
  abbrev pub answer : Bool → ApiFile × Config → Result Failure Config
  answer true loaded = parse_api loaded.0 loaded.1 >>= λ api. ok api.foundation
  answer false loaded = ok loaded.1

  unfoldable pub load_foundation : List String → String → Result Failure Config
  load_foundation args expected_role = do
    loaded ← load_runtime args expected_role
    answer (expected_role == "" && loaded.1.runtime_role == runtime_role_api) loaded
