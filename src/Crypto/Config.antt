-- ===== src/Crypto/Config.antt =====
-- internal/platform/crypto/config.go
use accountable.Prelude.{String}

abbrev pub crypto_provider_local : String
crypto_provider_local = "local"

abbrev pub crypto_provider_aws_kms : String
crypto_provider_aws_kms = "aws_kms"

pub record CryptoConfig : Type 0 where
  pub provider : String
  pub key_ref : String
  pub region : String
  pub kms_key_arn : String
  pub encryption_context_prefix : String
