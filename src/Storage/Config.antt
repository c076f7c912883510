-- ===== src/Storage/Config.antt =====
-- internal/platform/storage/config.go
use accountable.Prelude.{String}

abbrev pub storage_provider_file : String
storage_provider_file = "filesystem"

abbrev pub storage_provider_s3 : String
storage_provider_s3 = "s3"

pub record StorageConfig : Type 0 where
  pub provider : String
  pub root : String
  pub region : String
  pub bucket : String
  pub prefix : String
  pub expected_owner : String
  pub kms_key_arn : String
  pub access_purpose : String
