-- ===== src/Appconfig/Web.antt =====
-- internal/appconfig/web.go. The URL parser, the decoder of the file and encoding/json are
-- parameters.
use Prim.Native.String.{◌++◌ as concat}
use accountable.Prelude.{
  ℕ, String, Bool, true, false, not, ◌&&◌, ◌||◌, ◌≡◌, ◌≢◌, ◌⊎◌, inl, inr, refl, Bool-cases, Option,
  none, some, Result, ok, err, ◌>>=◌, ◌>>◌, ◌==◌, arith, eq_iff,
}
use accountable.Go.{Url, Parsers}
use accountable.Text.{trim_suffix}
use accountable.Text.Patterns.{configuration_revision_pattern}
use accountable.Bootstrap.Config.Failure.{Failure, message, refuse}

abbrev runtime_config_schema_version : ℕ
runtime_config_schema_version = 1

pub record WebRuntime : Type 0 where
  pub environment : String
  pub api_base_url : String
  pub architecture_probe : Bool
  pub configuration_revision : String

pub record WebRuntimeFile : Type 0 where
  pub environment : String
  pub api_base_url : String
  pub architecture_probe : Option Bool

-- the condition on a parsed base URL; `none` is a failed url.Parse
unfoldable pub is_base_url : Option Url → Bool
is_base_url none = false
is_base_url (some parsed) =
    not (parsed.host == "")
    && (parsed.scheme == "http" || parsed.scheme == "https")
    && not parsed.has_user
    && parsed.raw_query == ""
    && parsed.fragment == ""

unfoldable pub has_https : Option Url → Bool
has_https none = false
has_https (some parsed) = parsed.scheme == "https"

abbrev slash : ℕ
slash = 0x2f

unfoldable pub validate_api_base_url : Parsers → String → String → Result Failure String
unfolding is_base_url has_https
validate_api_base_url go environment value = do
  refuse (not (is_base_url (go.parse_url value)))
      "api_base_url must be an absolute HTTP URL without credentials, queries, or fragments"
  refuse (environment == "production" && not (has_https (go.parse_url value)))
      "production web runtime: api_base_url must use HTTPS"
  ok (trim_suffix value slash)

-- *raw.ArchitectureProbe, after its nil check
abbrev given : Option Bool → Result Failure Bool
given none = err (message "architecture_probe is required")
given (some probe) = ok probe

unfoldable pub load_web_runtime :
    Parsers → Result Failure WebRuntimeFile → String → Result Failure WebRuntime
load_web_runtime go decoded revision = do
  raw ← decoded
  refuse
      (not (raw.environment == "development")
        && not (raw.environment == "staging")
        && not (raw.environment == "production"))
      "environment must be development, staging, or production"
  probe ← given raw.architecture_probe
  refuse (raw.environment == "production" && probe)
      "production web runtime: architecture_probe must be false"
  base_url ← validate_api_base_url go raw.environment raw.api_base_url
  refuse (not (configuration_revision_pattern revision))
      "revision must be 1 to 128 characters using only letters, digits, '.', '_', or '-'"
  ok (record {
    environment = raw.environment;
    api_base_url = base_url;
    architecture_probe = probe;
    configuration_revision = revision;
  })

-- The object that RuntimeConfigJSON marshals.
pub record RuntimeDocument : Type 0 where
  pub schema_version : ℕ
  pub api_base_url : String
  pub architecture_probe : Bool
  pub configuration_revision : String

unfoldable pub runtime_config_json :
    (RuntimeDocument → Result Failure String) → WebRuntime → Result Failure String
runtime_config_json marshal w = do
  document ← marshal (record {
    schema_version = runtime_config_schema_version;
    api_base_url = w.api_base_url;
    architecture_probe = w.architecture_probe;
    configuration_revision = w.configuration_revision;
  })
  ok (concat document "\n")

-- What the file's base URL is parsed as: an HTTP URL with a host and without credentials, query or
-- fragment, which in production uses HTTPS.
abbrev pub IsPublicUrl : String → Url → Type 0
IsPublicUrl environment url =
    (url.host ≢ "")
    × ((url.scheme ≡ "https") ⊎ ((url.scheme ≡ "http") × (environment ≢ "production")))
    × (url.has_user ≡ false)
    × (url.raw_query ≡ "")
    × (url.fragment ≡ "")

is_base_url-IsPublicUrl :
    (environment : String) (parsed : Option Url)
    → is_base_url parsed ≡ true
    → environment == "production" && not (has_https parsed) ≡ false
    → (url : Url) × (parsed ≡ some url) × IsPublicUrl environment url
unfolding is_base_url has_https
is_base_url-IsPublicUrl environment none h p = cc
is_base_url-IsPublicUrl environment (some url) h p = (
  url,
  refl,
  (
    ground (arith, eq_iff url.host ""),
    elim (Bool-cases (url.scheme == "https")) [
      | inl secure ↦ inl ((eq_iff url.scheme "https").0 secure)
      | inr plain ↦ inr (
        ground (arith, eq_iff url.scheme "http"),
        ground (arith, eq_iff environment "production"),
      )
    ],
    ground arith,
    ground (arith, eq_iff url.raw_query ""),
    ground (arith, eq_iff url.fragment ""),
  ),
)

-- A runtime that can be published.
pub record Publishable (go : Parsers) (raw : WebRuntimeFile) (revision : String) (w : WebRuntime)
    : Type 0 where
  pub same : w.environment ≡ raw.environment
  pub environment :
      (w.environment ≡ "development") ⊎ (w.environment ≡ "staging") ⊎ (w.environment ≡ "production")
  pub base_url :
      (url : Url) × (go.parse_url raw.api_base_url ≡ some url) × IsPublicUrl w.environment url
  pub trimmed : w.api_base_url ≡ trim_suffix raw.api_base_url slash
  pub production : (w.environment ≢ "production") ⊎ (w.architecture_probe ≡ false)
  pub probe : raw.architecture_probe ≡ some w.architecture_probe
  pub matched :
      (w.configuration_revision ≡ revision) × (configuration_revision_pattern revision ≡ true)

-- When LoadWebRuntime accepts a decoded file and a revision, the environment is the file's and one of
-- the three, the file's base URL is parsed as an HTTP URL with a host and without credentials, query
-- or fragment, published without a final slash, the probe flag is the given one, the revision is the
-- given one and matches its pattern, and in production the URL uses HTTPS and the probe is off.
pub load_web_runtime_sound :
    (go : Parsers) (raw : WebRuntimeFile) (revision : String) (w : WebRuntime)
    → load_web_runtime go (ok raw) revision ≡ ok w
    → Publishable go raw revision w
unfolding load_web_runtime validate_api_base_url
load_web_runtime_sound go raw revision w h = record {
  same = ground arith;
  environment = ground (
    arith,
    eq_iff raw.environment "development",
    eq_iff raw.environment "staging",
    eq_iff raw.environment "production",
  );
  base_url =
      let same : w.environment ≡ raw.environment = ground arith in
      rw same (
        is_base_url-IsPublicUrl raw.environment (go.parse_url raw.api_base_url) (ground arith)
          (ground arith));
  trimmed = ground arith;
  production = elim (Bool-cases (raw.environment == "production")) [
    | inl live ↦ inr (ground arith)
    | inr other ↦ inl (ground (arith, eq_iff raw.environment "production"))
  ];
  probe = ground arith;
  matched = (ground arith, ground arith);
}
