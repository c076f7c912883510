-- ===== src/Bootstrap/Config/SecretLaws.antt =====
-- What the parser of the secrets section accepts, and that it dereferences no nil.
use accountable.Prelude.{
  String, Bool, true, false, ◌≡◌, ◌≢◌, refl, Option, none, some, ok, err, eq_iff, arith,
}
use accountable.Go.{Url, Parsers}
use accountable.Text.{has_prefix}
use accountable.Text.Paths.{clean, dir}
use accountable.Text.Patterns.{aws_region_pattern}
use accountable.Secret.Ref.{
  SecretConfig, provider_file, provider_infisical, auth_aws_iam, infisical_cloud_eu_endpoint,
}
use accountable.Bootstrap.Config.Failure.{nil_dereference, absolute_from}
use accountable.Bootstrap.Config.Sections.{empty_secrets, other_endpoint, parse_secrets}
use accountable.Bootstrap.Config.Laws.{IsResolved, absolute_from-IsResolved}

-- An accepted local section names a directory and nothing of Infisical; a managed one is the
-- Infisical endpoint in the application's region and environment, by workload identity.
pub record LocalSecrets (config_path : String) (raw c : SecretConfig) : Type 0 where
  pub unset : raw ≡ record empty_secrets { provider = provider_file; directory = raw.directory }
  pub same : c ≡ record empty_secrets { provider = provider_file; directory = c.directory }
  pub given : raw.directory ≢ ""
  pub directory : IsResolved config_path raw.directory c.directory
  pub provider : c.provider ≡ provider_file
  pub site_url : c.site_url ≡ ""
  pub machine_identity_id : c.machine_identity_id ≡ ""

pub record ManagedSecrets (go : Parsers) (environment aws_region : String) (raw c : SecretConfig)
    : Type 0 where
  pub same : c ≡ raw
  pub project : c.project_id ≢ ""
  pub known_region : aws_region_pattern c.aws_region ≡ true
  pub named_stage : c.environment ≢ ""
  pub provider : c.provider ≡ provider_infisical
  pub directory : c.directory ≡ ""
  pub endpoint :
      (url : Url) × (go.parse_url c.site_url ≡ some url) × (url.text ≡ infisical_cloud_eu_endpoint)
  pub region : c.aws_region ≡ aws_region
  pub stage : c.environment ≡ environment
  pub auth_method : c.auth_method ≡ auth_aws_iam
  pub secret_path : (clean c.secret_path ≡ c.secret_path) × (has_prefix c.secret_path "/" ≡ true)
  pub identity : c.machine_identity_id ≢ ""

pub parse_secrets-LocalSecrets :
    (go : Parsers) (environment aws_region config_path : String) (raw c : SecretConfig)
    → parse_secrets go environment false aws_region config_path raw ≡ ok c
    → LocalSecrets config_path raw c
unfolding parse_secrets
parse_secrets-LocalSecrets go environment aws_region config_path raw c h = record {
  unset = ground (
    arith,
    eq_iff raw.provider provider_file,
    eq_iff raw.site_url "",
    eq_iff raw.aws_region "",
    eq_iff raw.project_id "",
    eq_iff raw.environment "",
    eq_iff raw.secret_path "",
    eq_iff raw.auth_method "",
    eq_iff raw.machine_identity_id "",
  );
  same = ground (arith, eq_iff raw.provider provider_file);
  given = ground (arith, eq_iff raw.directory "");
  directory =
      let found : c.directory ≡ absolute_from (dir config_path) raw.directory = ground arith in
      rw found (absolute_from-IsResolved config_path raw.directory);
  provider = ground (arith, eq_iff raw.provider provider_file);
  site_url = ground arith;
  machine_identity_id = ground arith;
}

endpoint_cases :
    (o : Option Url)
    → other_endpoint o ≡ false
    → (url : Url) × (o ≡ some url) × (url.text ≡ infisical_cloud_eu_endpoint)
unfolding other_endpoint
endpoint_cases none h = cc
endpoint_cases (some url) h =
    (url, refl, ground (arith, eq_iff url.text infisical_cloud_eu_endpoint))

pub parse_secrets-ManagedSecrets :
    (go : Parsers) (environment aws_region config_path : String) (raw c : SecretConfig)
    → parse_secrets go environment true aws_region config_path raw ≡ ok c
    → ManagedSecrets go environment aws_region raw c
unfolding parse_secrets
parse_secrets-ManagedSecrets go environment aws_region config_path raw c h = ground (
  arith,
  eq_iff raw.directory "",
  eq_iff raw.project_id "",
  eq_iff raw.environment "",
  eq_iff raw.provider provider_infisical,
  endpoint_cases (go.parse_url raw.site_url),
  eq_iff raw.aws_region aws_region,
  eq_iff raw.environment environment,
  eq_iff raw.auth_method auth_aws_iam,
  eq_iff (clean raw.secret_path) raw.secret_path,
  eq_iff raw.machine_identity_id "",
)

pub parse_secrets-ne-nil :
    (go : Parsers) (environment : String) (managed : Bool) (aws_region config_path : String)
    (raw : SecretConfig)
    → parse_secrets go environment managed aws_region config_path raw ≢ err nil_dereference
unfolding parse_secrets
parse_secrets-ne-nil go environment managed aws_region config_path raw h = ground arith
