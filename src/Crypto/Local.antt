-- ===== src/Crypto/Local.antt =====
-- LocalCrypto of internal/platform/crypto/crypto.go. The packages called (encoding/base64, crypto/aes,
-- crypto/cipher, crypto/rand, os) are parameters.
use accountable.Prelude.{
  ℕ, String, Bool, false, not, ◌&&◌, ◌≡◌, ◌≢◌, ◌↔◌, refl, Option, none, some, List, [], ◌∷◌, ◌++◌,
  length, Result, ok, ◌>>=◌, ◌>>◌, reject, or_else, ltb, eqb, ◌==◌, arith, length-append,
  is_some-some,
}
use accountable.Bytes.{Bytes, ascii, equal, equal_iff, take, drop, take-append, drop-append}
use accountable.Text.Paths.{clean}
use accountable.Secret.File.{FileInfo, others_may_access, from_option, context}

abbrev pub crypto_unavailable : String
crypto_unavailable = "crypto is unavailable"

-- cipher.AEAD without additional data; `none` is an error.
pub record Aead : Type 0 where
  pub nonce_size : ℕ
  pub seal : Bytes → Bytes → Bytes
  pub open_sealed : Bytes → Bytes → Option Bytes

-- `decode` gives the bytes that base64.StdEncoding.Decode wrote; `random` is rand.Read of a size.
pub record Packages : Type 0 where
  pub decode : Bytes → Option Bytes
  pub new_cipher : Bytes → Option Aead
  pub random : ℕ → Option Bytes
  pub lstat : String → Option FileInfo

pub record LocalCrypto : Type 0 where
  pub aead : Aead
  pub key_path : String

abbrev pub first_path : List String → String
first_path [] = ""
first_path (path ∷ paths) = clean path

abbrev pub preflight_text : Bytes
preflight_text = ascii "accountable-crypto-preflight"

abbrev pub safe_key_file : Option FileInfo → Bool
safe_key_file none = false
safe_key_file (some info) = info.is_regular && not info.is_symlink && not (others_may_access info)

module _ (packages : Packages) where
  -- `new_cipher` is aes.NewCipher followed by cipher.NewGCM.
  unfoldable pub new_local_crypto : Bytes → List String → Result String LocalCrypto
  new_local_crypto value key_path = do
    key ← from_option crypto_unavailable (packages.decode value)
    reject (not (eqb (length key) 32)) crypto_unavailable
    aead ← from_option crypto_unavailable (packages.new_cipher key)
    ok (record { aead = aead; key_path = first_path key_path })

  unfoldable pub probe : LocalCrypto → Option String → Result String (Unit {0})
  probe crypto context_error = do
    context context_error
    reject (not (crypto.key_path == "") && not (safe_key_file (packages.lstat crypto.key_path)))
        crypto_unavailable

  unfoldable pub seal : LocalCrypto → Bytes → Result String Bytes
  seal crypto plaintext = do
    nonce ← from_option crypto_unavailable (packages.random crypto.aead.nonce_size)
    ok (nonce ++ crypto.aead.seal nonce plaintext)

  unfoldable pub unseal : LocalCrypto → Bytes → Result String Bytes
  unfolding take drop
  unseal crypto ciphertext = do
    reject (ltb (length ciphertext) crypto.aead.nonce_size) crypto_unavailable
    from_option crypto_unavailable (
        crypto.aead.open_sealed (take crypto.aead.nonce_size ciphertext)
          (drop crypto.aead.nonce_size ciphertext))

  unfoldable pub check : LocalCrypto → Option String → Result String (Unit {0})
  unfolding equal seal unseal
  check crypto context_error = do
    context context_error
    sealed ← or_else (seal crypto preflight_text) crypto_unavailable
    opened ← or_else (unseal crypto sealed) crypto_unavailable
    reject (not (equal opened preflight_text)) crypto_unavailable

-- What a cipher and a source of random bytes promise.
pub record Decrypts (aead : Aead) : Type 0 where
  pub opens :
      (nonce plaintext : Bytes)
      → length nonce ≡ aead.nonce_size
      → aead.open_sealed nonce (aead.seal nonce plaintext) ≡ some plaintext

pub record FillsNonce (packages : Packages) : Type 0 where
  pub fills : (size : ℕ) (bytes : Bytes) → packages.random size ≡ some bytes → length bytes ≡ size

-- What Seal returns, Open turns back into the plaintext, for a cipher that opens what it seals.
pub unseal-seal :
    (packages : Packages) (crypto : LocalCrypto) (plaintext sealed : Bytes)
    → Decrypts crypto.aead
    → FillsNonce packages
    → seal packages crypto plaintext ≡ ok sealed
    → unseal packages crypto sealed ≡ ok plaintext
unfolding seal unseal
unseal-seal packages crypto plaintext sealed cipher source h =
    let (nonce, r) = is_some-some (packages.random crypto.aead.nonce_size) (λ e. ground arith) in
    let size = source.fills crypto.aead.nonce_size nonce r in
    let body = crypto.aead.seal nonce plaintext in
    let same : nonce ++ body ≡ sealed = ground arith in
    let front : take crypto.aead.nonce_size (nonce ++ body) ≡ nonce =
      rw⁻¹ size (take-append nonce body) in
    let back : drop crypto.aead.nonce_size (nonce ++ body) ≡ body =
      rw⁻¹ size (drop-append nonce body) in
    rw⁻¹ same (
      rw (front, back)
        (ground (arith, length-append nonce body, cipher.opens nonce plaintext size)))

sealing_works :
    (packages : Packages) (crypto : LocalCrypto) (nonce plaintext : Bytes)
    → packages.random crypto.aead.nonce_size ≡ some nonce
    → (sealed : Bytes) × (seal packages crypto plaintext ≡ ok sealed)
unfolding seal
sealing_works packages crypto nonce plaintext r =
    (nonce ++ crypto.aead.seal nonce plaintext, rw r refl)

sealing_needs_random :
    (packages : Packages) (crypto : LocalCrypto)
    → packages.random crypto.aead.nonce_size ≡ none
    → (plaintext sealed : Bytes) → seal packages crypto plaintext ≢ ok sealed
unfolding seal
sealing_needs_random packages crypto e plaintext sealed h = ground arith

-- Check succeeds exactly when its context is not done and random bytes for a nonce are available,
-- for a cipher that opens what it seals.
pub check_iff :
    (packages : Packages) (crypto : LocalCrypto) (context_error : Option String)
    → Decrypts crypto.aead
    → FillsNonce packages
    → (check packages crypto context_error ≡ ok tt)
      ↔ ((context_error ≡ none) × (packages.random crypto.aead.nonce_size ≢ none))
unfolding check
check_iff packages crypto context_error cipher source = (
  λ h. (ground arith, λ e. ground (arith, sealing_needs_random packages crypto e preflight_text)),
  λ h.
      let (nonce, r) = is_some-some (packages.random crypto.aead.nonce_size) h.1 in
      let (sealed, s) = sealing_works packages crypto nonce preflight_text r in
      let opened = unseal-seal packages crypto preflight_text sealed cipher source s in
      ground (arith, equal_iff preflight_text preflight_text),
)
