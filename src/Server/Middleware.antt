-- ===== src/Server/Middleware.antt =====
-- healthHandler, trustedProxyMiddleware and credentialedCORSMiddleware of cmd/api/serve.go. Headers are
-- maps by canonical name to one text; a handler takes the request and the response headers
-- that are set before it. net.SplitHostPort, net.ParseIP and IPNet.Contains are parameters.
pub mod Laws
use Prim.Native.String.{◌++◌ as concat}
use accountable.Prelude.{
  ℕ, String, Bool, true, false, not, ◌&&◌, ◌||◌, ◌≡◌, ◌≢◌, ◌⊎◌, inl, inr, refl, sym, ap, ◌∙◌,
  Option, none, some, List, [], ◌∷◌, any, Result, ok, err, ◌==◌, if◌then◌else◌, is_some, arith,
  eq_iff, Bool-cases,
}
use accountable.Maps.{Dict, lookup, insert, member, lookup-insert}

pub record Request : Type 0 where
  pub method : String
  pub remote_addr : String
  pub headers : Dict String

pub record Response : Type 0 where
  pub headers : Dict String
  pub status : ℕ
  pub body : String

abbrev pub Handler : Type 0
Handler = Request → Dict String → Response

-- header.Del(name)
unfoldable pub delete : String → Dict String → Dict String
delete name [] = []
delete name ((key, value) ∷ rest) =
    let later = delete name rest in if key == name then later else (key, value) ∷ later

pub lookup-delete :
    (name read : String) (headers : Dict String)
    → lookup read (delete name headers) ≡ (if name == read then none else lookup read headers)
unfolding lookup delete
lookup-delete name read [] = ground arith
lookup-delete name read ((key, value) ∷ rest) =
    ground (arith, lookup-delete name read rest, eq_iff name read, eq_iff key read, eq_iff key name)

pub record Network (Net Ip : Type 0) : Type 0 where
  pub split_host_port : String → Option (String × String)
  pub parse_ip : String → Option Ip
  pub contains : Net → Ip → Bool

-- the four deletions for a request that is not trusted
unfoldable pub strip_forwarded : Dict String → Dict String
strip_forwarded headers =
    delete "X-Forwarded-Proto"
      (delete "X-Forwarded-Host" (delete "X-Forwarded-For" (delete "Forwarded" headers)))

module _ {Net Ip : Type 0} (net : Network Net Ip) where
  in_networks : List Net → Option Ip → Bool
  in_networks trusted none = false
  in_networks trusted (some ip) = any (λ network. net.contains network ip) trusted

  address_is_trusted : List Net → Option (String × String) → Bool
  unfolding in_networks
  address_is_trusted trusted none = false
  address_is_trusted trusted (some (host, port)) = in_networks trusted (net.parse_ip host)

  unfoldable pub is_trusted : List Net → Request → Bool
  unfolding address_is_trusted
  is_trusted trusted request = address_is_trusted trusted (net.split_host_port request.remote_addr)

  unfoldable pub trusted_proxy_middleware : List Net → Handler → Handler
  trusted_proxy_middleware trusted next request headers =
      next
        (if is_trusted trusted request
          then request
          else record request { headers = strip_forwarded request.headers })
        headers

-- request.Header.Get(name), "" for a missing header
abbrev pub get : Option String → String
get none = ""
get (some value) = value

unfoldable pub is_allowed : List String → Request → Bool
is_allowed origins request =
    let origin = get (lookup "Origin" request.headers) in
    not (origin == "") && member origin origins

-- http.Header.Add, where the values of a header are one text with commas between them.
abbrev pub appended : Option String → String → String
appended none value = value
appended (some values) value = concat values (concat ", " value)

unfoldable pub add_value : String → String → Dict String → Dict String
add_value name value headers = insert name (appended (lookup name headers) value) headers

-- The headers of every answer to an allowed origin.
unfoldable pub allow : String → Dict String → Dict String
unfolding add_value
allow origin headers = add_value "Vary" "Origin" (
    insert "Access-Control-Expose-Headers" "X-Request-ID, X-Trace-ID, Grpc-Status, Grpc-Message" (
      insert "Access-Control-Allow-Credentials" "true"
        (insert "Access-Control-Allow-Origin" origin headers)))

unfoldable pub preflight_headers : Dict String → Dict String
preflight_headers headers = insert "Access-Control-Max-Age" "600" (
    insert "Access-Control-Allow-Headers"
      "Accept-Language, Connect-Protocol-Version, Connect-Timeout-Ms, Content-Type, X-Trace-ID"
      (insert "Access-Control-Allow-Methods" "POST, OPTIONS" headers))

unfoldable pub credentialed_cors_middleware : List String → Handler → Handler
credentialed_cors_middleware origins next request headers =
    let allowed = allow (get (lookup "Origin" request.headers)) headers in
    if not (is_allowed origins request)
    then next request headers
    else if request.method == "OPTIONS"
    then record { headers = preflight_headers allowed; status = 204; body = "" }
    else next request allowed

pub record HealthResponse : Type 0 where
  pub status : String
  pub release_id : String
  pub request_id : String

-- The identifier is uuid.NewV7's or the nil one; `encode` is encoding/json's encoder.
unfoldable pub health_handler : (HealthResponse → String) → String → Bool → String → Handler
health_handler encode release_id healthy request_id request headers = record {
  headers =
      insert "X-Request-ID" request_id
        (insert "Content-Type" "application/json" (insert "Cache-Control" "no-store" headers));
  status = if healthy then 200 else 503;
  body = encode (record {
    status = if healthy then "ok" else "not_ready";
    release_id = release_id;
    request_id = request_id;
  });
}
