-- ===== src/Crypto/Aws.antt =====
-- AWSCrypto of internal/platform/crypto/crypto_aws.go. The encryption SDK and KMS are parameters.
use Prim.Native.String.{◌++◌ as concat}
use accountable.Prelude.{
  String, Bool, true, false, not, ◌&&◌, ◌||◌, ◌≡◌, refl, Option, none, some, [], ◌∷◌, length, all,
  All, Result, ok, ◌>>=◌, ◌>>◌, reject, or_else, eqb, ◌==◌, if◌then◌else◌, arith, eq_refl,
}
use accountable.Bytes.{Bytes, equal}
use accountable.Maps.{Dict, lookup}
use accountable.Secret.File.{from_option, context}
use accountable.Crypto.Local.{crypto_unavailable, preflight_text}

-- The output of a decryption: the plaintext and the context stored with it.
pub record Decrypted : Type 0 where
  pub plaintext : Bytes
  pub context : Dict String

-- The metadata of a key that DescribeKey returns.
pub record KeyMetadata : Type 0 where
  pub enabled : Bool
  pub key_state : String

-- The SDK's client with its keyring; `none` is an error or no output. `describe_key` also gives
-- `none` where the output has no metadata.
pub record Packages : Type 0 where
  pub encrypt : Bytes → Dict String → Option Bytes
  pub decrypt : Bytes → Dict String → Option Decrypted
  pub describe_key : String → Option KeyMetadata

pub record AwsCrypto : Type 0 where
  pub context_prefix : String
  pub has_kms : Bool
  pub key_id : String

unfoldable pub encryption_context : String → Dict String
encryption_context prefix =
    let prefix = if prefix == "" then "accountable.foundation" else prefix in
    (concat prefix ".application", "accountable") ∷ (concat prefix ".purpose", "foundation") ∷ []

-- got[key], the empty text for a key that is missing
abbrev pub value_or_empty : Option String → String
value_or_empty none = ""
value_or_empty (some value) = value

unfoldable pub includes_encryption_context : Dict String → Dict String → Bool
unfolding lookup
includes_encryption_context got want =
    all (λ pair. value_or_empty (lookup pair.0 got) == pair.1) want

module _ (packages : Packages) (crypto : AwsCrypto) where
  unfoldable pub encrypt : Bytes → Result String Bytes
  unfolding encryption_context
  encrypt plaintext =
      from_option crypto_unavailable
        (packages.encrypt plaintext (encryption_context crypto.context_prefix))

  unfoldable pub decrypt : Bytes → Result String Bytes
  unfolding encryption_context includes_encryption_context
  decrypt ciphertext = do
    output ←
        from_option crypto_unavailable
          (packages.decrypt ciphertext (encryption_context crypto.context_prefix))
    reject
        (not
          (includes_encryption_context output.context (encryption_context crypto.context_prefix)))
        crypto_unavailable
    ok output.plaintext

  unfoldable pub seal : Option String → Bytes → Result String Bytes
  unfolding encrypt
  seal context_error plaintext = do
    or_else (context context_error) crypto_unavailable
    sealed ← or_else (encrypt plaintext) crypto_unavailable
    reject (eqb (length sealed) 0) crypto_unavailable
    ok sealed

  unfoldable pub unseal : Option String → Bytes → Result String Bytes
  unfolding decrypt
  unseal context_error ciphertext = do
    or_else (context context_error) crypto_unavailable
    or_else (decrypt ciphertext) crypto_unavailable

  unfoldable pub check : Option String → Result String (Unit {0})
  unfolding seal unseal equal
  check context_error = do
    sealed ← or_else (seal context_error preflight_text) crypto_unavailable
    opened ← or_else (unseal context_error sealed) crypto_unavailable
    reject (not (equal opened preflight_text)) crypto_unavailable

  abbrev pub usable_key : Option KeyMetadata → Bool
  usable_key none = false
  usable_key (some metadata) = metadata.enabled && metadata.key_state == "Enabled"

  unfoldable pub probe : Result String (Unit {0})
  probe = do
    reject (not crypto.has_kms || crypto.key_id == "") crypto_unavailable
    reject (not (usable_key (packages.describe_key crypto.key_id))) crypto_unavailable

-- What the SDK promises: a ciphertext decrypts to its plaintext, with a stored context that has at
-- least the pairs that it was encrypted with.
pub record Restores (packages : Packages) : Type 0 where
  pub restores :
      (plaintext ciphertext : Bytes) (want : Dict String)
      → packages.encrypt plaintext want ≡ some ciphertext
      → (output : Decrypted) × (packages.decrypt ciphertext want ≡ some output)
        × (output.plaintext ≡ plaintext)
        × All (λ pair. lookup pair.0 output.context ≡ some pair.1) want

included :
    (got want : Dict String)
    → All (λ pair. lookup pair.0 got ≡ some pair.1) want
    → includes_encryption_context got want ≡ true
unfolding includes_encryption_context
included got [] h = refl
included got (pair ∷ want) h = ground (arith, h.0, eq_refl pair.1, included got want h.1)

-- What Seal returns, Open turns back into the plaintext, for an SDK that restores what it encrypts.
pub aws_unseal-seal :
    (packages : Packages) (crypto : AwsCrypto) (plaintext sealed : Bytes)
    → Restores packages
    → seal packages crypto none plaintext ≡ ok sealed
    → unseal packages crypto none sealed ≡ ok plaintext
unfolding seal unseal
aws_unseal-seal packages crypto plaintext sealed sdk h =
    let want = encryption_context crypto.context_prefix in
    let (output, d, same, has) = sdk.restores plaintext sealed want (ground arith) in
    ground (arith, included output.context want has)
