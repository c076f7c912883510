-- ===== src/Bootstrap/Config/StoreLaws.antt =====
-- What the parsers of the storage and key-management sections accept.
use text.Mathlib.TextLemmas.{cons-ne-nil}
use accountable.Prelude.{
  String, Bool, true, false, ◌≡◌, ◌≢◌, ◌⊎◌, Option, none, some, ok, err, eq_iff, arith,
}
use accountable.Text.{has_prefix, contains}
use accountable.Text.Patterns.{
  aws_region_pattern, aws_account_pattern, s3_bucket_pattern, aws_kms_key_arn_pattern,
}
use accountable.Secret.Ref.{parse_ref}
use accountable.Secret.Ref.Laws.{parse_ref_sound}
use accountable.Storage.Config.{StorageConfig, storage_provider_file, storage_provider_s3}
use accountable.Crypto.Config.{CryptoConfig, crypto_provider_local, crypto_provider_aws_kms}
use accountable.Bootstrap.Config.{access_purpose_foundation_proof}
use accountable.Bootstrap.Config.Failure.{
  nil_dereference, absolute_from, groups_match, validate_kms_key_arn,
}
use accountable.Bootstrap.Config.Stores.{
  empty_storage, empty_crypto, is_blank, parse_storage, parse_crypto,
}
use accountable.Bootstrap.Config.Laws.{IsResolved, absolute_from-IsResolved}
use accountable.Text.Paths.{dir}

groups_match_sound :
    (groups : Option (String × String)) (region account : String)
    → groups_match groups region account ≡ true
    → (found : String) × (groups ≡ some (region, found)) × ((account ≡ "") ⊎ (found ≡ account))
unfolding groups_match
groups_match_sound none region account h = cc
groups_match_sound (some (r, a)) region account h =
    (a, ground (arith, eq_iff r region), ground (arith, eq_iff account "", eq_iff a account))

account-ne-nil : (s : String) → aws_account_pattern s ≡ true → s ≢ ""
unfolding aws_account_pattern
account-ne-nil String.[] h e = cc
account-ne-nil (String.◌∷◌ c s) h e = cons-ne-nil c s e

-- An accepted key ARN is one of the region, and of the account if one is asked for.
pub validate_kms_key_arn_sound :
    (value region account : String)
    → validate_kms_key_arn value region account ≡ ok tt
    → (found : String) × (aws_kms_key_arn_pattern value ≡ some (region, found))
      × ((account ≡ "") ⊎ (found ≡ account))
unfolding validate_kms_key_arn
validate_kms_key_arn_sound value region account h =
    groups_match_sound (aws_kms_key_arn_pattern value) region account (ground arith)

-- A directory below the file, or an absolute one, and nothing of S3.
pub record LocalStorage (config_path : String) (raw c : StorageConfig) : Type 0 where
  pub unset : raw ≡ record empty_storage {
    provider = storage_provider_file;
    root = raw.root;
    access_purpose = access_purpose_foundation_proof;
  }
  pub same : c ≡ record empty_storage {
    provider = storage_provider_file;
    root = c.root;
    access_purpose = access_purpose_foundation_proof;
  }
  pub given : raw.root ≢ ""
  pub root : IsResolved config_path raw.root c.root
  pub provider : c.provider ≡ storage_provider_file
  pub bucket : c.bucket ≡ ""
  pub kms_key_arn : c.kms_key_arn ≡ ""
  pub access_purpose : c.access_purpose ≡ access_purpose_foundation_proof

-- The bucket, its prefix, its owner and its key are all well formed and of the one region.
pub record ManagedStorage (aws_region : String) (raw c : StorageConfig) : Type 0 where
  pub same : c ≡ raw
  pub known_region : aws_region_pattern c.region ≡ true
  pub named : c.prefix ≢ ""
  pub provider : c.provider ≡ storage_provider_s3
  pub root : c.root ≡ ""
  pub region : c.region ≡ aws_region
  pub bucket : s3_bucket_pattern c.bucket ≡ true
  pub owner : aws_account_pattern c.expected_owner ≡ true
  pub relative : has_prefix c.prefix "/" ≡ false
  pub inside : contains c.prefix ".." ≡ false
  pub key : aws_kms_key_arn_pattern c.kms_key_arn ≡ some (aws_region, c.expected_owner)
  pub access_purpose : c.access_purpose ≡ access_purpose_foundation_proof

pub parse_storage-LocalStorage :
    (aws_region config_path : String) (raw c : StorageConfig)
    → parse_storage false aws_region config_path raw ≡ ok c
    → LocalStorage config_path raw c
unfolding parse_storage
parse_storage-LocalStorage aws_region config_path raw c h = record {
  unset = ground (
    arith,
    eq_iff raw.provider storage_provider_file,
    eq_iff raw.access_purpose access_purpose_foundation_proof,
    eq_iff raw.region "",
    eq_iff raw.bucket "",
    eq_iff raw.prefix "",
    eq_iff raw.expected_owner "",
    eq_iff raw.kms_key_arn "",
  );
  same = ground (
    arith,
    eq_iff raw.provider storage_provider_file,
    eq_iff raw.access_purpose access_purpose_foundation_proof,
  );
  given = ground (arith, eq_iff raw.root "");
  root =
      let found : c.root ≡ absolute_from (dir config_path) raw.root = ground arith in
      rw found (absolute_from-IsResolved config_path raw.root);
  provider = ground (arith, eq_iff raw.provider storage_provider_file);
  bucket = ground arith;
  kms_key_arn = ground arith;
  access_purpose = ground (arith, eq_iff raw.access_purpose access_purpose_foundation_proof);
}

pub parse_storage-ManagedStorage :
    (aws_region config_path : String) (raw c : StorageConfig)
    → parse_storage true aws_region config_path raw ≡ ok c
    → ManagedStorage aws_region raw c
unfolding parse_storage
parse_storage-ManagedStorage aws_region config_path raw c h = record {
  same = ground (arith, eq_iff raw.root "");
  known_region = ground arith;
  named = ground (arith, eq_iff raw.prefix "");
  provider = ground (arith, eq_iff raw.provider storage_provider_s3);
  root = ground arith;
  region = ground (arith, eq_iff raw.region aws_region);
  bucket = ground arith;
  owner = ground arith;
  relative = ground arith;
  inside = ground arith;
  key = ground (
    arith,
    eq_iff raw.region aws_region,
    account-ne-nil raw.expected_owner,
    validate_kms_key_arn_sound raw.kms_key_arn raw.region raw.expected_owner,
  );
  access_purpose = ground (arith, eq_iff raw.access_purpose access_purpose_foundation_proof);
}

pub parse_storage-ne-nil :
    (managed : Bool) (aws_region config_path : String) (raw : StorageConfig)
    → parse_storage managed aws_region config_path raw ≢ err nil_dereference
unfolding parse_storage
parse_storage-ne-nil managed aws_region config_path raw h = ground arith

-- A key among the secrets and a context that is not blank, and nothing of AWS.
pub record LocalCrypto (raw c : CryptoConfig) : Type 0 where
  pub unset : (raw.region ≡ "") × (raw.kms_key_arn ≡ "")
  pub same : c ≡ record empty_crypto {
    provider = crypto_provider_local;
    key_ref = raw.key_ref;
    encryption_context_prefix = raw.encryption_context_prefix;
  }
  pub encryption_context_prefix : is_blank c.encryption_context_prefix ≡ false
  pub provider : c.provider ≡ crypto_provider_local
  pub key_ref : parse_ref c.key_ref ≡ ok c.key_ref
  pub kms_key_arn : c.kms_key_arn ≡ ""

pub record ManagedCrypto (aws_region : String) (raw c : CryptoConfig) : Type 0 where
  pub same : c ≡ raw
  pub known_region : aws_region_pattern c.region ≡ true
  pub encryption_context_prefix : is_blank c.encryption_context_prefix ≡ false
  pub provider : c.provider ≡ crypto_provider_aws_kms
  pub key_ref : c.key_ref ≡ ""
  pub region : c.region ≡ aws_region
  pub key :
      (account : String) × (aws_kms_key_arn_pattern c.kms_key_arn ≡ some (aws_region, account))

pub parse_crypto-LocalCrypto :
    (aws_region : String) (raw c : CryptoConfig)
    → parse_crypto false aws_region raw ≡ ok c
    → LocalCrypto raw c
unfolding parse_crypto
parse_crypto-LocalCrypto aws_region raw c h = record {
  unset = (ground (arith, eq_iff raw.region ""), ground (arith, eq_iff raw.kms_key_arn ""));
  same =
      ground
        (arith, eq_iff raw.provider crypto_provider_local, parse_ref_sound raw.key_ref c.key_ref);
  encryption_context_prefix = ground arith;
  provider = ground (arith, eq_iff raw.provider crypto_provider_local);
  key_ref = ground (arith, parse_ref_sound raw.key_ref c.key_ref);
  kms_key_arn = ground arith;
}

pub parse_crypto-ManagedCrypto :
    (aws_region : String) (raw c : CryptoConfig)
    → parse_crypto true aws_region raw ≡ ok c
    → ManagedCrypto aws_region raw c
unfolding parse_crypto
parse_crypto-ManagedCrypto aws_region raw c h =
    let valid : validate_kms_key_arn raw.kms_key_arn raw.region "" ≡ ok tt = ground arith in
    let (account, found, _) = validate_kms_key_arn_sound raw.kms_key_arn raw.region "" valid in
    record {
      same = ground (arith, eq_iff raw.key_ref "");
      known_region = ground arith;
      encryption_context_prefix = ground arith;
      provider = ground (arith, eq_iff raw.provider crypto_provider_aws_kms);
      key_ref = ground arith;
      region = ground (arith, eq_iff raw.region aws_region);
      key = (account, ground (arith, eq_iff raw.region aws_region));
    }

pub parse_crypto-ne-nil :
    (managed : Bool) (aws_region : String) (raw : CryptoConfig)
    → parse_crypto managed aws_region raw ≢ err nil_dereference
unfolding parse_crypto
parse_crypto-ne-nil managed aws_region raw h = ground arith
