-- ===== src/Secret/Infisical.antt =====
-- InfisicalSecretSource and InfisicalSecretStore of internal/platform/secret/secret_infisical.go,
-- over the interface of their API. A call passes on the state of the remote store.
pub mod Http
pub mod Laws
pub mod Loop
pub mod Rerun
use accountable.Prelude.{
  ℕ, ◌+◌, String, Bool, true, false, not, ◌&&◌, ◌||◌, Option, none, some, List, [], ◌∷◌, length,
  Result, ok, err, ◌>>=◌, ◌>>◌, reject, is_ok, is_some, ltb, leb, eqb, ◌==◌, if◌then◌else◌,
}
use accountable.Bytes.{Bytes}
use accountable.Maps.{Dict, lookup, insert, member}
use accountable.Secret.Ref.{parse_ref}
use accountable.Secret.File.{maximum_secret_bytes}

-- errInfisicalSecretNotFound, ErrSecretSourceUnavailable, and the errors of the packages called
pub data ApiError : Type 0 where
  secret_not_found : ApiError
  unavailable : ApiError
  failed : String → ApiError

pub record StoreApi (S : Type 0) : Type 0 where
  pub login : S → Result ApiError String × S
  pub read : String → String → S → Result ApiError Bytes × S
  pub create : String → String → Bytes → S → Result ApiError (Unit {0}) × S

abbrev pub unsized : Bytes → Bool
unsized value = eqb (length value) 0 || ltb maximum_secret_bytes (length value)

-- err != nil || len(value) == 0 || len(value) > maximumSecretBytes
abbrev pub acceptable : Result ApiError Bytes → Result ApiError Bytes
acceptable (err e) = err unavailable
acceptable (ok value) = if unsized value then err unavailable else ok value

-- err != nil || token == ""
abbrev pub usable_token : Result ApiError String → Result ApiError String
usable_token (err e) = err unavailable
usable_token (ok token) = if token == "" then err unavailable else ok token

unfoldable pub check_refs : List String → List String → Result ApiError (Unit {0})
check_refs [] seen = ok tt
check_refs (ref ∷ refs) seen = do
  reject (not (is_ok (parse_ref ref))) unavailable
  reject (member ref seen) unavailable
  check_refs refs (ref ∷ seen)

module _ {S : Type 0} where
  -- The next statement, after one that returned a value; the return of an error otherwise.
  abbrev pub after :
      {A B : Type 0}
      → Result ApiError A × S
      → (A → S → Result ApiError B × S)
      → Result ApiError B × S
  after (err e, s) next = (err e, s)
  after (ok a, s) next = next a s

  abbrev pub first : {A B : Type 0} → (A → B) → A × S → B × S
  first f (a, s) = (f a, s)

module _ {S : Type 0} (api : StoreApi S) where
  module _ (generate : String → Result ApiError Bytes) (token ref : String) where
    abbrev pub create_generated : Result ApiError Bytes → S → Result ApiError Bytes × S
    create_generated (err e) s = (err e, s)
    create_generated (ok value) s =
        if unsized value
        then (ok value, s)
        else first (λ created. created >>= λ _. ok value) (api.create token ref value s)

    abbrev pub create_missing : Result ApiError Bytes × S → Result ApiError Bytes × S
    create_missing (err secret_not_found, s) = create_generated (generate ref) s
    create_missing (err unavailable, s) = (err unavailable, s)
    create_missing (err (failed e), s) = (err (failed e), s)
    create_missing (ok value, s) = (ok value, s)

    unfoldable pub resolve_or_create : Dict Bytes → S → Result ApiError (Dict Bytes) × S
    resolve_or_create values s =
        if not (is_ok (parse_ref ref)) || is_some (lookup ref values)
        then (err unavailable, s)
        else first (λ r. acceptable r >>= λ value. ok (insert ref value values))
            (create_missing (api.read token ref s))

  module _ (generate : String → Result ApiError Bytes) (token : String) where
    unfoldable pub resolve_or_create_each :
        List String → Dict Bytes → S → Result ApiError (Dict Bytes) × S
    resolve_or_create_each [] values s = (ok values, s)
    resolve_or_create_each (ref ∷ refs) values s =
        after (resolve_or_create generate token ref values s) (resolve_or_create_each refs)

  -- A nil `generate` is `none`.
  unfoldable pub resolve_or_create_batch :
      List String → Option (String → Result ApiError Bytes) → S → Result ApiError (Dict Bytes) × S
  resolve_or_create_batch [] generate s = (err unavailable, s)
  resolve_or_create_batch (ref ∷ refs) none s = (err unavailable, s)
  resolve_or_create_batch (ref ∷ refs) (some generate) s =
      after (first usable_token (api.login s))
        (λ token. resolve_or_create_each generate token (ref ∷ refs) [])

  unfoldable pub read_each :
      String → List String → Dict Bytes → S → Result ApiError (Dict Bytes) × S
  read_each token [] values s = (ok values, s)
  read_each token (ref ∷ refs) values s =
      after (first acceptable (api.read token ref s))
        (λ value. read_each token refs (insert ref value values))

  unfoldable pub resolve_batch : List String → S → Result ApiError (Dict Bytes) × S
  resolve_batch [] s = (ok [], s)
  resolve_batch (ref ∷ refs) s =
      after (check_refs (ref ∷ refs) [], s)
        (λ _ s. after (first usable_token (api.login s)) (λ token. read_each token (ref ∷ refs) []))
