-- ===== src/Secret/Infisical/Http/Laws.antt =====
-- What a response must be for the Infisical API to give its secret, and when it says that there is none.
use accountable.Prelude.{
  ◌≤◌, ◌<◌, ◌+◌, String, true, ◌≡◌, ◌≢◌, refl, Option, none, some, ok, err, arith, eq_iff,
  Option-cases, Result-cases, inl, inr,
}
use accountable.Bytes.{Bytes, take}
use accountable.Secret.Ref.{SecretConfig}
use accountable.Secret.File.{maximum_secret_bytes}
use accountable.Secret.Infisical.{secret_not_found}
use accountable.Secret.Infisical.Http.{
  HttpRequest, HttpResponse, SecretBody, Packages, decode_body, answered, do_json, read_request,
  value_for, read,
}

module _ {S Credentials : Type 0} (packages : Packages S Credentials) (config : SecretConfig) where
  decode_body-found :
      {A : Type 0} (decode : Bytes → Option (A × Bytes)) (body : Bytes)
      → decode_body packages decode body ≢ err secret_not_found
  unfolding decode_body
  decode_body-found decode body = ground arith

  answered-missing :
      {A : Type 0} (decode : Bytes → Option (A × Bytes)) (response : Option HttpResponse)
      → answered packages decode response ≡ err secret_not_found
      → (found : HttpResponse) × (response ≡ some found) × (found.status ≡ 404)
  unfolding answered
  answered-missing decode none h = cc
  answered-missing decode (some found) h =
      (found, refl, ground (arith, decode_body-found decode found.body))

  value_for-found :
      (ref : String) (secret : SecretBody)
      → value_for packages config ref secret ≢ err secret_not_found
  value_for-found ref secret = ground arith

  read_request-found :
      (token ref : String) → read_request packages config token ref ≢ err secret_not_found
  unfolding read_request
  read_request-found token ref = ground arith

  -- Read says that a secret is not found only where the request for its reference was sent and
  -- answered with status 404.
  pub read_missing :
      (token ref : String) (s : S)
      → (read packages config token ref s).0 ≡ err secret_not_found
      → (request : HttpRequest) × (read_request packages config token ref ≡ ok request)
        × (response : HttpResponse) × ((packages.send request s).0 ≡ some response)
        × (response.status ≡ 404)
  unfolding read do_json
  read_missing token ref s h = elim (Result-cases (read_request packages config token ref)) [
    | inl (request, e) ↦
        let answer = answered packages packages.decode_secret (packages.send request s).0 in
        let missing : answer ≡ err secret_not_found = elim (Result-cases answer) [
          | inl (secret, a) ↦ absurd (ground (arith, value_for-found ref secret))
          | inr (failure, a) ↦ ground arith
        ] in
        let (response, sent, status) =
          answered-missing packages.decode_secret (packages.send request s).0 missing in
        (request, e, response, sent, status)
    | inr (failure, e) ↦ absurd (ground (arith, read_request-found token ref))
  ]

  -- A value that Read returns comes from an answer with a status of 200 to 299, the whole body of
  -- which is one JSON value with the key that was asked for and a value that is not empty.
  pub read_found :
      (token ref : String) (s : S) (value : Bytes)
      → (read packages config token ref s).0 ≡ ok value
      → (request : HttpRequest) × (read_request packages config token ref ≡ ok request)
        × (response : HttpResponse) × ((packages.send request s).0 ≡ some response)
        × (200 ≤ response.status)
        × (response.status < 300)
        × (secret : SecretBody) × (rest : Bytes) × (packages.decode_secret
              (take (maximum_secret_bytes + 4096) response.body)
            ≡ some (secret, rest))
        × (packages.at_end rest ≡ true)
        × (secret.key ≡ ref)
        × (secret.value ≢ "")
        × (value ≡ packages.text_bytes secret.value)
  unfolding read do_json answered decode_body
  read_found token ref s value h = elim (Result-cases (read_request packages config token ref)) [
    | inl (request, e) ↦ elim (Option-cases (packages.send request s).0) [
      | inl silent ↦ absurd (ground arith)
      | inr (response, sent) ↦
          elim (Option-cases
            (packages.decode_secret (take (maximum_secret_bytes + 4096) response.body))) [
              | inl bad ↦ absurd (ground arith)
              | inr ((secret, rest), d) ↦ (
                request,
                e,
                response,
                sent,
                ground arith,
                ground arith,
                secret,
                rest,
                d,
                ground arith,
                ground (arith, eq_iff secret.key ref),
                ground (arith, eq_iff secret.value ""),
                ground arith,
              )
            ]
    ]
    | inr (failure, e) ↦ absurd (ground arith)
  ]
