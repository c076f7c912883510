-- ===== src/Secret/Infisical/Http.antt =====
-- infisicalHTTPAPI of internal/platform/secret/secret_infisical.go. The packages it calls (net/http,
-- encoding/json, net/url, the AWS signer) are the fields of a record.
pub mod Laws
use Prim.Native.String.{◌++◌ as concat}
use accountable.Prelude.{
  ℕ, ◌+◌, String, Bool, true, false, not, ◌||◌, Option, none, some, List, [], ◌∷◌, ◌++◌, map,
  length, Result, ok, err, ◌>>=◌, ◌>>◌, reject, ltb, leb, eqb, ◌==◌, if◌then◌else◌,
}
use accountable.Bytes.{Bytes, ascii, take}
use accountable.Maps.{Dict, insert}
use accountable.Secret.Ref.{SecretConfig}
use accountable.Secret.File.{maximum_secret_bytes}
use accountable.Secret.Infisical.{
  ApiError, secret_not_found, unavailable, failed, StoreApi, after, first,
}

pub record HttpRequest : Type 0 where
  pub method : String
  pub url : String
  pub host : String
  pub headers : Dict (List String)
  pub body : Bytes

pub record HttpResponse : Type 0 where
  pub status : ℕ
  pub body : Bytes

-- The `secret` of a response: its key and its value.
pub record SecretBody : Type 0 where
  pub key : String
  pub value : String

-- A value of the JSON objects that are sent.
pub data Field : Type 0 where
  text : String → Field
  flag : Bool → Field

-- The packages called. A decoder reads one JSON value and leaves the rest of the input; `at_end`
-- says that the next value is io.EOF. `text_bytes` and `bytes_text` convert between string and
-- []byte.
pub record Packages (S Credentials : Type 0) : Type 0 where
  pub retrieve : S → Result String Credentials
  pub new_request : String → String → Bytes → Result String HttpRequest
  pub sign : Credentials → HttpRequest → String → String → S → Result String HttpRequest
  pub send : HttpRequest → S → Option HttpResponse × S
  pub sha256_hex : Bytes → String
  pub base64 : Bytes → String
  pub itoa : ℕ → String
  pub path_escape : String → String
  pub encode_query : Dict String → String
  pub marshal : Dict Field → Result String Bytes
  pub decode_token : Bytes → Option (String × Bytes)
  pub decode_secret : Bytes → Option (SecretBody × Bytes)
  pub at_end : Bytes → Bool
  pub text_bytes : String → Bytes
  pub bytes_text : Bytes → String

abbrev pub wrap : {A : Type 0} → Result String A → Result ApiError A
wrap (ok a) = ok a
wrap (err e) = err (failed e)

abbrev pub unavailable_on_error : {A : Type 0} → Result ApiError A → Result ApiError A
unavailable_on_error (ok a) = ok a
unavailable_on_error (err e) = err unavailable

abbrev pub sts_body : Bytes
sts_body = ascii "Action=GetCallerIdentity&Version=2011-06-15"

-- http.Header's Set
abbrev pub set_header : String → String → HttpRequest → HttpRequest
set_header name value request = record {
  method = request.method;
  url = request.url;
  host = request.host;
  headers = insert name (value ∷ []) request.headers;
  body = request.body;
}

unfoldable pub forwarded_headers : Dict (List String) → Dict String → Result ApiError (Dict String)
forwarded_headers [] forwarded = ok forwarded
forwarded_headers ((name, []) ∷ headers) forwarded = err unavailable
forwarded_headers ((name, value ∷ []) ∷ headers) forwarded =
    forwarded_headers headers (insert name value forwarded)
forwarded_headers ((name, value ∷ other ∷ values) ∷ headers) forwarded = err unavailable

module _ {S Credentials : Type 0} (packages : Packages S Credentials) where
  -- `decode` reads the target of the call.
  unfoldable pub decode_body :
      {A : Type 0} → (Bytes → Option (A × Bytes)) → Bytes → Result ApiError A
  decode_body decode body = decoded (decode (take (maximum_secret_bytes + 4096) body))
    where
      decoded : {A : Type 0} → Option (A × Bytes) → Result ApiError A
      decoded none = err unavailable
      decoded (some (target, rest)) = if packages.at_end rest then ok target else err unavailable

  unfoldable pub answered :
      {A : Type 0} → (Bytes → Option (A × Bytes)) → Option HttpResponse → Result ApiError A
  answered decode none = err unavailable
  answered decode (some response) =
      if ltb response.status 200 || leb 300 response.status
      then if eqb response.status 404
        then err secret_not_found
        else err
            (failed (concat "secret source is unavailable: HTTP " (packages.itoa response.status)))
      else decode_body decode response.body

  unfoldable pub do_json :
      {A : Type 0} → (Bytes → Option (A × Bytes)) → HttpRequest → S → Result ApiError A × S
  do_json decode request s = first (answered decode) (packages.send request s)

  module _ (config : SecretConfig) where
    abbrev pub sts_request : S → Result ApiError HttpRequest
    sts_request s = do
      credentials ← wrap (packages.retrieve s)
      request ← wrap (
          packages.new_request "POST"
            (concat "https://sts." (concat config.aws_region ".amazonaws.com/")) sts_body)
      wrap (
          packages.sign credentials
            (set_header "Content-Type" "application/x-www-form-urlencoded; charset=utf-8" request)
            (packages.sha256_hex sts_body) config.aws_region s)

    unfoldable pub login_request : S → Result ApiError HttpRequest
    unfolding forwarded_headers
    login_request s = do
      signed ← sts_request s
      headers ← forwarded_headers signed.headers []
      header_bytes ← wrap (
          packages.marshal (
            map (λ h. (h.0, text h.1))
              (insert "Content-Length" (packages.itoa (length sts_body))
                (insert "Host" signed.host headers))))
      payload ← wrap (
          packages.marshal (
            ("identityId", text config.machine_identity_id)
            ∷ ("iamHttpRequestMethod", text "POST")
            ∷ ("iamRequestBody", text (packages.base64 sts_body))
            ∷ ("iamRequestHeaders", text (packages.base64 header_bytes))
            ∷ []))
      request ← wrap (
          packages.new_request "POST" (concat config.site_url "/api/v1/auth/aws-auth/login")
            payload)
      ok (set_header "Content-Type" "application/json" request)

    -- err != nil || response.AccessToken == ""
    abbrev pub access_token : Result ApiError String → Result ApiError String
    access_token (err e) = err unavailable
    access_token (ok token) = if token == "" then err unavailable else ok token

    unfoldable pub login : S → Result ApiError String × S
    login s =
        after (login_request s, s)
          (λ request s. first access_token (do_json packages.decode_token request s))

    abbrev pub secret_url : String → String
    secret_url ref = concat config.site_url (concat "/api/v4/secrets/" (packages.path_escape ref))

    unfoldable pub read_request : String → String → Result ApiError HttpRequest
    read_request token ref = do
      request ← wrap (
          packages.new_request "GET"
            (concat (secret_url ref) (
              concat "?" (
                packages.encode_query (
                  ("environment", config.environment)
                  ∷ ("secretPath", config.secret_path)
                  ∷ ("projectId", config.project_id)
                  ∷ ("type", "shared")
                  ∷ ("viewSecretValue", "true")
                  ∷ ("expandSecretReferences", "false")
                  ∷ ("includeImports", "false")
                  ∷ []))))
            [])
      ok (set_header "Authorization" (concat "Bearer " token) request)

    -- The value of the response, where its key is the reference that was asked for.
    abbrev pub value_for : String → SecretBody → Result ApiError Bytes
    value_for ref secret =
        if not (secret.key == ref) || secret.value == ""
        then err unavailable
        else ok (packages.text_bytes secret.value)

    unfoldable pub read : String → String → S → Result ApiError Bytes × S
    read token ref s =
        after (read_request token ref, s)
          (λ request s. first (λ r. r >>= value_for ref) (do_json packages.decode_secret request s))

    unfoldable pub create_request : String → String → Bytes → Result ApiError HttpRequest
    create_request token ref value = do
      payload ← unavailable_on_error (
          wrap (
            packages.marshal (
              ("environment", text config.environment)
              ∷ ("projectId", text config.project_id)
              ∷ ("secretPath", text config.secret_path)
              ∷ ("secretValue", text (packages.bytes_text value))
              ∷ ("skipMultilineEncoding", flag true)
              ∷ ("type", text "shared")
              ∷ [])))
      request ← unavailable_on_error (wrap (packages.new_request "POST" (secret_url ref) payload))
      ok (
          set_header "Content-Type" "application/json"
            (set_header "Authorization" (concat "Bearer " token) request))

    -- err != nil || response.Secret.Key != string(ref)
    abbrev pub created_as : String → Result ApiError SecretBody → Result ApiError (Unit {0})
    created_as ref (err e) = err unavailable
    created_as ref (ok secret) = if secret.key == ref then ok tt else err unavailable

    unfoldable pub create : String → String → Bytes → S → Result ApiError (Unit {0}) × S
    create token ref value s =
        after (create_request token ref value, s)
          (λ request s. first (created_as ref) (do_json packages.decode_secret request s))

    abbrev pub http_api : StoreApi S
    http_api = record { login = login; read = read; create = create }
