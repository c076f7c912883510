-- ===== src/Bootstrap/Config.antt =====
-- internal/bootstrap/config.go: the types of the configuration file and of the parsed
-- configuration. The children hold the parsers of the sections and the whole `Parse`.
pub mod Failure
pub mod CapabilityChecks
pub mod Sections
pub mod Stores
pub mod Parse
pub mod Laws
pub mod SecretLaws
pub mod StoreLaws
pub mod Header
pub mod Safe
pub mod Safety
use accountable.Prelude.{ℕ, String, Bool, Option}
use accountable.Go.{ℤ, Duration}
use accountable.Secret.Ref.{SecretConfig}
use accountable.Database.Config.{DatabaseConfig}
use accountable.Storage.Config.{StorageConfig}
use accountable.Crypto.Config.{CryptoConfig}

abbrev pub time_provider_system : String
time_provider_system = "system"

abbrev pub time_provider_linux : String
time_provider_linux = "linux"

abbrev pub runtime_role_api : String
runtime_role_api = "api"

abbrev pub runtime_role_migrate : String
runtime_role_migrate = "migrate"

abbrev pub runtime_role_preflight : String
runtime_role_preflight = "preflight"

abbrev pub deployment_mode_local : String
deployment_mode_local = "local"

abbrev pub deployment_mode_managed : String
deployment_mode_managed = "managed"

abbrev pub access_purpose_foundation_proof : String
access_purpose_foundation_proof = "foundation-proof"

pub record Capabilities : Type 0 where
  pub architecture_probe : Bool
  pub postgres : Bool
  pub secrets : Bool
  pub kms : Bool
  pub object_storage : Bool

pub record TimeConfig : Type 0 where
  pub provider : String
  pub max_clock_error : Duration
  pub max_database_skew : Duration

pub record Config : Type 0 where
  pub schema_version : ℤ
  pub revision : String
  pub environment : String
  pub deployment_mode : String
  pub cell_id : String
  pub aws_region : String
  pub runtime_role : String
  pub fingerprint : String
  pub capabilities : Capabilities
  pub check_timeout : Duration
  pub readiness_probe_interval : Duration
  pub secrets : SecretConfig
  pub database : DatabaseConfig
  pub storage : StorageConfig
  pub crypto : CryptoConfig
  pub time : TimeConfig

-- A pointer of the file's types is `none` where the key is absent.
pub record CapabilitiesFile : Type 0 where
  pub architecture_probe : Option Bool
  pub postgres : Option Bool
  pub secrets : Option Bool
  pub kms : Option Bool
  pub object_storage : Option Bool
  pub telemetry : Option Bool
  pub redpanda : Option Bool

pub record DatabaseFile : Type 0 where
  pub host : String
  pub port : ℕ  -- uint16
  pub name : String
  pub user : String
  pub role : String
  pub password_ref : String
  pub tls_mode : String
  pub tls_root_ca_file : String
  pub connect_timeout : String
  pub statement_timeout : String
  pub health_check_interval : String
  pub max_connections : ℤ  -- int32
  pub timezone : String

pub record TimeFile : Type 0 where
  pub provider : String
  pub max_clock_error : String
  pub max_database_skew : String

-- SecretsFileConfig, StorageFileConfig and CryptoFileConfig have the fields of the parsed sections,
-- with texts for all of them.
pub record FileConfig : Type 0 where
  pub schema_version : ℤ
  pub revision : String
  pub environment : String
  pub deployment_mode : String
  pub cell_id : String
  pub aws_region : String
  pub runtime_role : String
  pub capabilities : CapabilitiesFile
  pub secrets : Option SecretConfig
  pub postgres : Option DatabaseFile
  pub object_storage : Option StorageConfig
  pub kms : Option CryptoConfig
  pub time : Option TimeFile
  pub check_timeout : String
  pub readiness_probe_interval : String
