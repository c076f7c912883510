-- ===== src/Bootstrap/Config/Safe.antt =====
-- What Parse of internal/bootstrap/config.go promises of a configuration that it returns.
use accountable.Prelude.{String, true, false, ◌≡◌, some}
use accountable.Go.{Parsers}
use accountable.Secret.Ref.{SecretConfig}
use accountable.Storage.Config.{StorageConfig}
use accountable.Crypto.Config.{CryptoConfig}
use accountable.Bootstrap.Config.{Config, FileConfig, DatabaseFile, TimeFile}
use accountable.Bootstrap.Config.Sections.{empty_secrets}
use accountable.Bootstrap.Config.Stores.{empty_storage, empty_crypto}
use accountable.Bootstrap.Config.Parse.{is_managed, empty_database}
use accountable.Bootstrap.Config.Laws.{IsParsed, Agrees, SafeDatabase, SafeTime}
use accountable.Bootstrap.Config.StoreLaws.{
  LocalStorage, ManagedStorage, LocalCrypto, ManagedCrypto,
}
use accountable.Bootstrap.Config.Header.{SafeHeader, SafeRequirements}
use accountable.Bootstrap.Config.SecretLaws.{LocalSecrets, ManagedSecrets}

-- What `parse` promises of an accepted configuration.
pub record IsSafe (go : Parsers) (config_path fingerprint : String) (raw : FileConfig) (c : Config)
    : Type 0 where
  pub header : SafeHeader raw
  pub same :
      (c.schema_version ≡ raw.schema_version)
      × (c.revision ≡ raw.revision)
      × (c.environment ≡ raw.environment)
      × (c.deployment_mode ≡ raw.deployment_mode)
      × (c.cell_id ≡ raw.cell_id)
      × (c.aws_region ≡ raw.aws_region)
      × (c.runtime_role ≡ raw.runtime_role)
      × (c.fingerprint ≡ fingerprint)
  pub agrees : Agrees raw c.capabilities
  pub requirements : SafeRequirements raw c.capabilities
  pub check_timeout : IsParsed go raw.check_timeout c.check_timeout
  pub readiness_probe_interval : IsParsed go raw.readiness_probe_interval c.readiness_probe_interval
  pub off :
      (c.capabilities.secrets ≡ false → c.secrets ≡ empty_secrets)
      × (c.capabilities.postgres ≡ false → c.database ≡ empty_database)
      × (c.capabilities.object_storage ≡ false → c.storage ≡ empty_storage)
      × (c.capabilities.kms ≡ false → c.crypto ≡ empty_crypto)
  pub local_secrets :
      is_managed raw ≡ false
      → c.capabilities.secrets ≡ true
      → (section : SecretConfig) × (raw.secrets ≡ some section)
        × LocalSecrets config_path section c.secrets
  pub managed_secrets :
      is_managed raw ≡ true
      → c.capabilities.secrets ≡ true
      → (section : SecretConfig) × (raw.secrets ≡ some section)
        × ManagedSecrets go raw.environment raw.aws_region section c.secrets
  pub database :
      c.capabilities.postgres ≡ true
      → (section : DatabaseFile) × (raw.postgres ≡ some section)
        × SafeDatabase go (is_managed raw) config_path section c.database
  pub local_storage :
      is_managed raw ≡ false
      → c.capabilities.object_storage ≡ true
      → (section : StorageConfig) × (raw.object_storage ≡ some section)
        × LocalStorage config_path section c.storage
  pub managed_storage :
      is_managed raw ≡ true
      → c.capabilities.object_storage ≡ true
      → (section : StorageConfig) × (raw.object_storage ≡ some section)
        × ManagedStorage raw.aws_region section c.storage
  pub local_crypto :
      is_managed raw ≡ false
      → c.capabilities.kms ≡ true
      → (section : CryptoConfig) × (raw.kms ≡ some section) × LocalCrypto section c.crypto
  pub managed_crypto :
      is_managed raw ≡ true
      → c.capabilities.kms ≡ true
      → (section : CryptoConfig) × (raw.kms ≡ some section)
        × ManagedCrypto raw.aws_region section c.crypto
  pub time :
      (section : TimeFile) × (raw.time ≡ some section) × SafeTime go (is_managed raw) section c.time
