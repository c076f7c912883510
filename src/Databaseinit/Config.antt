-- ===== src/Databaseinit/Config.antt =====
-- loadConfig of cmd/bootstrap/main.go
use Prim.Native.String.{◌++◌ as concat}
use mathlib.Core.Path.{subst}
use accountable.Prelude.{
  ok-inj, reject-eq-ok, String, Bool, true, false, not, ◌&&◌, ◌||◌, ◌≡◌, ◌≢◌, ◌⊎◌, refl, List,
  Result, ok, ◌>>=◌, ◌>>◌, ◌==◌, arith, eq_iff, >>=-eq-ok,
}
use accountable.Text.Patterns.{aws_region_pattern}
use accountable.Text.{has_prefix}
use accountable.Text.Paths.{clean}
use accountable.Secret.Ref.{
  SecretConfig, provider_infisical, auth_aws_iam, infisical_cloud_eu_endpoint,
}
use accountable.Bootstrap.Config.Failure.{Failure, refuse}
use accountable.Bootstrap.Config.Stores.{is_blank}
use accountable.Appconfig.Load.{absolute_path}

pub record InitFile : Type 0 where
  pub aws_region : String
  pub database_host : String
  pub environment : String
  pub machine_identity_id : String
  pub project_id : String
  pub secret_root : String

pub record InitConfig : Type 0 where
  pub api_secrets : SecretConfig
  pub database_host : String
  pub environment : String
  pub migrate_secrets : SecretConfig
  pub region : String

-- configfile.Decode of a path into the file's fields, and whether net.ParseIP finds an address.
pub record Libraries : Type 0 where
  pub decode : String → Result Failure InitFile
  pub is_ip : String → Bool

unfoldable pub is_invalid : Libraries → InitFile → Bool
is_invalid lib raw =
    not (aws_region_pattern raw.aws_region)
    || lib.is_ip raw.database_host
    || is_blank raw.database_host
    || (not (raw.environment == "development")
        && not (raw.environment == "staging")
        && not (raw.environment == "production"))
    || raw.machine_identity_id == ""
    || raw.project_id == ""
    || raw.secret_root == ""
    || not (has_prefix raw.secret_root "/")
    || not (clean raw.secret_root == raw.secret_root)
    || raw.secret_root == "/"

abbrev pub secret_config : InitFile → String → SecretConfig
secret_config raw secret_path = record {
  provider = provider_infisical;
  directory = "";
  site_url = infisical_cloud_eu_endpoint;
  aws_region = raw.aws_region;
  project_id = raw.project_id;
  environment = raw.environment;
  secret_path = secret_path;
  auth_method = auth_aws_iam;
  machine_identity_id = raw.machine_identity_id;
}

unfoldable pub load_config : Libraries → List String → Result Failure InitConfig
load_config lib args = do
  path ← absolute_path args
  raw ← lib.decode path
  refuse (is_invalid lib raw) "managed bootstrap environment is invalid"
  ok (record {
    api_secrets = secret_config raw (concat raw.secret_root "/api");
    database_host = raw.database_host;
    environment = raw.environment;
    migrate_secrets = secret_config raw (concat raw.secret_root "/migrate");
    region = raw.aws_region;
  })

valid_file :
    (lib : Libraries) (raw : InitFile)
    → is_invalid lib raw ≡ false
    → (lib.is_ip raw.database_host ≡ false)
      × (is_blank raw.database_host ≡ false)
      × ((raw.environment ≡ "development")
          ⊎ (raw.environment ≡ "staging")
          ⊎ (raw.environment ≡ "production"))
      × (has_prefix raw.secret_root "/" ≡ true)
      × (clean raw.secret_root ≡ raw.secret_root)
      × (raw.secret_root ≢ "/")
unfolding is_invalid
valid_file lib raw h = (
  ground arith,
  ground arith,
  ground (
    arith,
    eq_iff raw.environment "development",
    eq_iff raw.environment "staging",
    eq_iff raw.environment "production",
  ),
  ground arith,
  ground (arith, eq_iff (clean raw.secret_root) raw.secret_root),
  ground (arith, eq_iff raw.secret_root "/"),
)

-- What a managed configuration has, for the file that it was read from.
abbrev pub IsManaged : Libraries → InitConfig → Type 0
IsManaged lib config =
    (raw : InitFile) × (lib.is_ip config.database_host ≡ false)
    × (is_blank config.database_host ≡ false)
    × ((config.environment ≡ "development")
        ⊎ (config.environment ≡ "staging")
        ⊎ (config.environment ≡ "production"))
    × (has_prefix raw.secret_root "/" ≡ true)
    × (clean raw.secret_root ≡ raw.secret_root)
    × (raw.secret_root ≢ "/")
    × (config.api_secrets ≡ secret_config raw (concat raw.secret_root "/api"))
    × (config.migrate_secrets ≡ secret_config raw (concat raw.secret_root "/migrate"))

-- A configuration that loadConfig accepts names a host that is neither blank nor an address, one of
-- the three environments, and an absolute cleaned secret root other than "/"; its two stores of
-- secrets differ only in their paths, which are the root followed by "/api" and by "/migrate".
pub load_config_sound :
    (lib : Libraries) (args : List String) (config : InitConfig)
    → load_config lib args ≡ ok config
    → IsManaged lib config
unfolding load_config
load_config_sound lib args config h =
    let (path, p, h) = >>=-eq-ok (absolute_path args) _ h in
    let (raw, d, h) = >>=-eq-ok (lib.decode path) _ h in
    let (valid, h) = reject-eq-ok (is_invalid lib raw) _ h in
    let (ip, blank, env, slash, cleaned, root) = valid_file lib raw valid in
    let same : _ ≡ config = ok-inj (ok _) refl h in
    subst (IsManaged lib) same (raw, ip, blank, env, slash, cleaned, root, refl, refl)
