-- ===== src/Storage/Objects.antt =====
-- S3Storage of internal/platform/storage/storage_s3.go. What the client answers is a parameter; the
-- state counts the preflight objects in the bucket.
use Prim.Native.String.{◌++◌ as concat}
use accountable.Prelude.{
  ℕ, suc, ◌-◌, String, Bool, true, false, not, ◌&&◌, ◌||◌, ◌≡◌, Option, none, some, List, any,
  length, Result, err, reject, ◌==◌, if◌then◌else◌,
}
use accountable.Bytes.{Bytes, ascii, equal, take}
use accountable.Text.{trim_suffix}
use accountable.Storage.Config.{StorageConfig}

abbrev pub storage_unavailable : String
storage_unavailable = "storage is unavailable"

pub record PublicAccess : Type 0 where
  pub block_public_acls : Bool
  pub ignore_public_acls : Bool
  pub block_public_policy : Bool
  pub restrict_public_buckets : Bool

-- The defaults of a rule: its algorithm and the key, the empty text for none.
pub record EncryptionDefaults : Type 0 where
  pub sse_algorithm : String
  pub kms_master_key_id : String

-- `none` is an error, or an output without the configuration. `get_object` finds the object; `read`
-- is what is then read of it.
pub record Client : Type 0 where
  pub public_access_block : Option PublicAccess
  pub encryption_rules : Option (List (Option EncryptionDefaults))
  pub put_object : String → Bool
  pub get_object : String → Bool
  pub read : String → Option Bytes
  pub closes : String → Bool
  pub delete_object : String → Bool

unfoldable pub blocks_all_public_access : Option PublicAccess → Bool
blocks_all_public_access none = false
blocks_all_public_access (some config) =
    config.block_public_acls && config.ignore_public_acls && config.block_public_policy
    && config.restrict_public_buckets

abbrev pub is_configured : String → Option EncryptionDefaults → Bool
is_configured key_arn none = false
is_configured key_arn (some defaults) =
    defaults.sse_algorithm == "aws:kms" && defaults.kms_master_key_id == key_arn

unfoldable pub uses_configured_kms_key : Option (List (Option EncryptionDefaults)) → String → Bool
uses_configured_kms_key none key_arn = false
uses_configured_kms_key (some rules) key_arn = any (is_configured key_arn) rules

abbrev pub preflight_object : Bytes
preflight_object = ascii "accountable-storage-preflight"

abbrev pub BlocksEverything : PublicAccess → Type 0
BlocksEverything config =
    (config.block_public_acls ≡ true)
    × (config.ignore_public_acls ≡ true)
    × (config.block_public_policy ≡ true)
    × (config.restrict_public_buckets ≡ true)

abbrev pub IsConfigured : String → Option EncryptionDefaults → Type 0
IsConfigured key_arn rule =
    (defaults : EncryptionDefaults) × (rule ≡ some defaults)
    × (defaults.sse_algorithm ≡ "aws:kms")
    × (defaults.kms_master_key_id ≡ key_arn)

-- A read that has succeeded with the bytes that were written.
abbrev pub same_bytes : Option Bytes → Bool
same_bytes none = false
same_bytes (some got) = equal got preflight_object

unfoldable pub probe : Client → Result String (Unit {0})
probe client =
    reject (not (blocks_all_public_access client.public_access_block)) storage_unavailable

-- The key of the preflight object, for a new UUID.
unfoldable pub preflight_key : StorageConfig → String → String
unfolding trim_suffix
preflight_key config uuid =
    concat (trim_suffix config.prefix b'/')
      (concat "/.accountable-preflight/" (concat config.access_purpose (concat "/" uuid)))

module _ (client : Client) (config : StorageConfig) where
  -- The deferred deletion, whose success is also part of the verdict.
  abbrev pub cleaned : String → Bool → ℕ → Result String (Unit {0}) × ℕ
  cleaned key good objects = (
    reject (not (client.delete_object key) || not good) storage_unavailable,
    if client.delete_object key then objects - 1 else objects,
  )

  -- io.LimitReader on a body
  abbrev pub limited : Option Bytes → Option Bytes
  limited none = none
  limited (some body) = some (take (suc (length preflight_object)) body)

  -- From the object that was put on.
  unfoldable pub check_object : String → ℕ → Result String (Unit {0}) × ℕ
  unfolding equal take
  check_object key objects =
      cleaned key
        (client.get_object key && same_bytes (limited (client.read key)) && client.closes key)
        objects

  unfoldable pub check : String → ℕ → Result String (Unit {0}) × ℕ
  unfolding probe preflight_key check_object
  check uuid objects =
      if not (blocks_all_public_access client.public_access_block)
      then (err storage_unavailable, objects)
      else if not (uses_configured_kms_key client.encryption_rules config.kms_key_arn)
      then (err storage_unavailable, objects)
      else if not (client.put_object (preflight_key config uuid))
      then (err storage_unavailable, objects)
      else check_object (preflight_key config uuid) (suc objects)
