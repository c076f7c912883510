-- ===== src/Awsconfig.antt =====
-- internal/platform/awsconfig/awsconfig.go, and NewStore of internal/platform/secret/source.go. The AWS SDK is
-- a parameter.
use accountable.Prelude.{String, Bool, not, ◌||◌, Result, ok, ◌>>=◌, ◌>>◌, reject, or_else, ◌==◌}
use accountable.Text.{has_prefix}
use accountable.Secret.Ref.{SecretConfig, provider_infisical}

abbrev pub workload_identity_unavailable : String
workload_identity_unavailable = "AWS workload identity is unavailable"

unfoldable pub safe_credential_source : String → Bool
safe_credential_source source =
    source == "WebIdentityCredentials"
    || source == "CredentialsEndpointProvider"
    || has_prefix source "EC2RoleProvider"

-- LoadDefaultConfig for a region, and the source of the credentials that a configuration retrieves.
pub record Sdk (AwsConfig : Type 0) : Type 0 where
  pub load_default : String → Result String AwsConfig
  pub retrieve : AwsConfig → Result String String

module _ {AwsConfig : Type 0} (sdk : Sdk AwsConfig) where
  unfoldable pub load_aws_config : String → Result String AwsConfig
  unfolding safe_credential_source
  load_aws_config region = do
    config ← or_else (sdk.load_default region) workload_identity_unavailable
    source ← or_else (sdk.retrieve config) workload_identity_unavailable
    reject (not (safe_credential_source source)) workload_identity_unavailable
    ok config

  -- The store of secrets, made of its configuration and the AWS configuration.
  unfoldable pub new_store :
      {Store : Type 0} → (SecretConfig → AwsConfig → Store) → SecretConfig → Result String Store
  unfolding load_aws_config
  new_store make config = do
    reject (not (config.provider == provider_infisical)) "secret source is unavailable"
    aws ← load_aws_config config.aws_region
    ok (make config aws)
