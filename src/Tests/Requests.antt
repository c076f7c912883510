-- ===== src/Tests/Requests.antt =====
-- Errors, message keys and requests through the middlewares.
use accountable.Prelude.{
  ◌≤◌, String, true, not, ◌&&◌, ◌≡◌, ◌≢◌, ◌⊎◌, refl, none, some, List, [], ◌∷◌, ◌==◌, if◌then◌else◌,
  length, All,
}
use accountable.Maps.{Dict, lookup, insert, member}
use accountable.Text.{split, any_char, all_chars}
use accountable.Apierror.{Error, wrapped, context_deadline, Environment, is_canceled, ensure_safe}
use accountable.Apierror.EnsureSafe.{Safe, ensure_safe-Safe, ensure_safe-idempotent}
use accountable.Apierror.MessageKey.{
  is_key_part, valid_message_key, KeyPart, valid_message_key_sound,
}
use accountable.Server.Middleware.{
  Request, Handler, Network, is_trusted, trusted_proxy_middleware, is_allowed, allow,
  credentialed_cors_middleware,
}
use accountable.Server.Middleware.Laws.{
  is_forwarded, allow_origin, trusted_proxy_middleware_lem, credentialed_cors_middleware_sound,
}

abbrev environment : Environment
environment = record {
  encodes = true;
  problem_id = "0198";
  identity = record { request_id = "r"; trace_id = "t" };
}

abbrev late : Error
late = wrapped "ping" context_deadline

ensure_safe-Safe_example :
    (r : Error) × (ensure_safe environment (some late) ≡ some r)
    × (((is_canceled late ≡ true) × (r ≡ late)) ⊎ Safe r)
ensure_safe-Safe_example = ensure_safe-Safe environment refl late

ensure_safe-idempotent_example :
    ensure_safe environment (ensure_safe environment (some late))
    ≡ ensure_safe environment (some late)
ensure_safe-idempotent_example = ensure_safe-idempotent environment refl environment (some late)

key_is_valid : valid_message_key "errors.rate_limited" ≡ true
unfolding valid_message_key is_key_part any_char all_chars split
key_is_valid = refl

valid_message_key_sound_example :
    (2 ≤ length (split "." "errors.rate_limited")) × All KeyPart (split "." "errors.rate_limited")
valid_message_key_sound_example = valid_message_key_sound "errors.rate_limited" key_is_valid

abbrev request : Request
request = record {
  method = "POST";
  remote_addr = "10.0.0.1:4000";
  headers = ("Origin", "https://app.example") ∷ ("X-Forwarded-For", "1.2.3.4") ∷ [];
}

abbrev network : Network String String
network = record {
  split_host_port = λ address. some ("10.0.0.1", "4000");
  parse_ip = λ host. some host;
  contains = λ net ip. net == ip;
}

-- A handler that answers with the headers set before it.
abbrev echo : Handler
echo r headers = record { headers = headers; status = 200; body = "" }

trusted_proxy_middleware_lem_example :
    (seen : Request) × (trusted_proxy_middleware network ("10.0.0.2" ∷ []) echo request []
      ≡ echo seen [])
    × (seen.method ≡ request.method)
    × (seen.remote_addr ≡ request.remote_addr)
    × ((name : String)
        → lookup name seen.headers ≡ (
            if not (is_trusted network ("10.0.0.2" ∷ []) request) && is_forwarded name
            then none
            else lookup name request.headers))
trusted_proxy_middleware_lem_example =
    trusted_proxy_middleware_lem network ("10.0.0.2" ∷ []) echo request []

abbrev origins : List String
origins = "https://app.example" ∷ []

abbrev no_headers : Dict String
no_headers = []

abbrev app_origin : String
app_origin = "https://app.example"

unset : lookup allow_origin no_headers ≡ none
unfolding lookup
unset = refl

answered :
    lookup allow_origin (credentialed_cors_middleware origins echo request []).headers
    ≡ some "https://app.example"
unfolding credentialed_cors_middleware is_allowed allow lookup insert member
answered = refl

credentialed_cors_middleware_sound_example :
    (lookup "Origin" request.headers ≡ some "https://app.example")
    × (app_origin ≢ "")
    × (member "https://app.example" origins ≡ true)
credentialed_cors_middleware_sound_example =
    credentialed_cors_middleware_sound origins echo (λ r h. refl) request no_headers unset
      "https://app.example" answered
