-- ===== src/Bootstrap/Config/Stores.antt =====
-- parseStorage and parseCrypto of internal/bootstrap/config.go.
use accountable.Prelude.{
  ℕ, String, Bool, not, ◌&&◌, ◌||◌, ◌/◌, ◌%◌, ltb, Result, ok, ◌>>=◌, ◌>>◌, ◌==◌, eqb,
  if◌then◌else◌,
}
use accountable.Text.{has_prefix, contains, all_chars}
use accountable.Text.Paths.{dir}
use accountable.Text.Patterns.{aws_region_pattern, aws_account_pattern, s3_bucket_pattern}
use accountable.Secret.Ref.{parse_ref}
use accountable.Storage.Config.{StorageConfig, storage_provider_file, storage_provider_s3}
use accountable.Crypto.Config.{CryptoConfig, crypto_provider_local, crypto_provider_aws_kms}
use accountable.Bootstrap.Config.{access_purpose_foundation_proof}
use accountable.Bootstrap.Config.Failure.{
  Failure, wrap, refuse, absolute_from, validate_kms_key_arn,
}

abbrev pub empty_storage : StorageConfig
empty_storage = record {
  provider = "";
  root = "";
  region = "";
  bucket = "";
  prefix = "";
  expected_owner = "";
  kms_key_arn = "";
  access_purpose = "";
}

parse_local_storage : String → StorageConfig → Result Failure StorageConfig
parse_local_storage config_path raw = do
  refuse (not (raw.provider == storage_provider_file) || raw.root == "")
      "local object_storage.provider must be filesystem with a root"
  refuse
      (not (raw.region == "")
        || not (raw.bucket == "")
        || not (raw.prefix == "")
        || not (raw.expected_owner == "")
        || not (raw.kms_key_arn == ""))
      "filesystem object storage cannot include S3 settings"
  ok (record empty_storage {
    provider = raw.provider;
    root = absolute_from (dir config_path) raw.root;
    access_purpose = raw.access_purpose;
  })

parse_managed_storage : String → StorageConfig → Result Failure StorageConfig
parse_managed_storage aws_region raw = do
  refuse (not (raw.provider == storage_provider_s3)) "managed object_storage.provider must be s3"
  refuse (not (raw.root == "")) "S3 object storage cannot include a filesystem root"
  refuse
      (not (aws_region_pattern raw.region)
        || not (s3_bucket_pattern raw.bucket)
        || not (aws_account_pattern raw.expected_owner))
      "S3 region, bucket, and expected_owner are invalid"
  refuse (not (raw.region == aws_region))
      "object_storage.region must match the top-level aws_region"
  refuse (raw.prefix == "" || has_prefix raw.prefix "/" || contains raw.prefix "..")
      "S3 prefix must be a non-empty relative prefix"
  wrap "object_storage.kms_key_arn"
      (validate_kms_key_arn raw.kms_key_arn raw.region raw.expected_owner)
  ok (record raw { root = "" })

unfoldable pub parse_storage : Bool → String → String → StorageConfig → Result Failure StorageConfig
unfolding parse_local_storage parse_managed_storage
parse_storage managed aws_region config_path raw = do
  refuse (not (raw.access_purpose == access_purpose_foundation_proof))
      "object_storage.access_purpose must be foundation-proof"
  if not managed then parse_local_storage config_path raw else parse_managed_storage aws_region raw

abbrev pub empty_crypto : CryptoConfig
empty_crypto = record {
  provider = "";
  key_ref = "";
  region = "";
  kms_key_arn = "";
  encryption_context_prefix = "";
}

-- unicode.IsSpace
abbrev is_space : ℕ → Bool
is_space c =
    eqb c 0x20
    || eqb c 0x09
    || eqb c 0x0a
    || eqb c 0x0b
    || eqb c 0x0c
    || eqb c 0x0d
    || eqb c 0x85
    || eqb c 0xa0
    || eqb c 0x1680
    || eqb c 0x2028
    || eqb c 0x2029
    || eqb c 0x202f
    || eqb c 0x205f
    || eqb c 0x3000
    || eqb (c / 16) 0x200 && ltb (c % 16) 11

-- strings.TrimSpace(s) == ""
pub is_blank : String → Bool
unfolding all_chars
is_blank = all_chars is_space

parse_local_crypto : CryptoConfig → Result Failure CryptoConfig
parse_local_crypto raw = do
  refuse (not (raw.provider == crypto_provider_local)) "local kms.provider must be local"
  key_ref ← wrap "kms.key_ref" (parse_ref raw.key_ref)
  refuse (not (raw.region == "") || not (raw.kms_key_arn == ""))
      "local KMS cannot include AWS KMS settings"
  ok (record empty_crypto {
    provider = raw.provider;
    key_ref = key_ref;
    encryption_context_prefix = raw.encryption_context_prefix;
  })

parse_managed_crypto : String → CryptoConfig → Result Failure CryptoConfig
parse_managed_crypto aws_region raw = do
  refuse (not (raw.provider == crypto_provider_aws_kms)) "managed kms.provider must be aws_kms"
  refuse (not (raw.key_ref == "")) "AWS KMS cannot include a local key reference"
  refuse (not (aws_region_pattern raw.region)) "kms.region is invalid"
  refuse (not (raw.region == aws_region)) "kms.region must match the top-level aws_region"
  wrap "kms.kms_key_arn" (validate_kms_key_arn raw.kms_key_arn raw.region "")
  ok (record raw { key_ref = "" })

unfoldable pub parse_crypto : Bool → String → CryptoConfig → Result Failure CryptoConfig
unfolding is_blank parse_local_crypto parse_managed_crypto
parse_crypto managed aws_region raw = do
  refuse (is_blank raw.encryption_context_prefix) "kms.encryption_context_prefix is required"
  if not managed then parse_local_crypto raw else parse_managed_crypto aws_region raw
