-- ===== src/Server/Middleware/Laws.antt =====
-- What the middlewares of cmd/api/serve.go let through.
use mathlib.Core.Path.{subst}
use accountable.Prelude.{
  String, Bool, true, false, not, ◌&&◌, ◌||◌, ◌≡◌, ◌≢◌, inl, inr, refl, ap, ◌∙◌, Option, none, some,
  List, ◌==◌, if◌then◌else◌, arith, eq_iff, Bool-cases,
}
use accountable.Maps.{Dict, lookup, member, lookup-insert}
use accountable.Server.Middleware.{
  Request, Handler, delete, lookup-delete, Network, strip_forwarded, is_trusted,
  trusted_proxy_middleware, get, is_allowed, allow, preflight_headers, credentialed_cors_middleware,
}

-- The headers that a proxy sets to say whom it speaks for.
abbrev pub is_forwarded : String → Bool
is_forwarded name =
    name == "Forwarded"
    || name == "X-Forwarded-For"
    || name == "X-Forwarded-Host"
    || name == "X-Forwarded-Proto"

lookup-strip_forwarded :
    (name : String) (headers : Dict String)
    → lookup name (strip_forwarded headers)
      ≡ (if is_forwarded name then none else lookup name headers)
unfolding strip_forwarded
lookup-strip_forwarded name headers =
    let a = delete "Forwarded" headers in
    let b = delete "X-Forwarded-For" a in
    let c = delete "X-Forwarded-Host" b in
    ground (
      arith,
      lookup-delete "Forwarded" name headers,
      lookup-delete "X-Forwarded-For" name a,
      lookup-delete "X-Forwarded-Host" name b,
      lookup-delete "X-Forwarded-Proto" name c,
      eq_iff name "Forwarded",
      eq_iff name "X-Forwarded-For",
      eq_iff name "X-Forwarded-Host",
      eq_iff name "X-Forwarded-Proto",
      eq_iff "Forwarded" name,
      eq_iff "X-Forwarded-For" name,
      eq_iff "X-Forwarded-Host" name,
      eq_iff "X-Forwarded-Proto" name,
    )

-- A request from a trusted proxy reaches the next handler as it is; any other one reaches it with the
-- same method and address, without the four forwarding headers, and with all its other headers.
pub trusted_proxy_middleware_lem :
    {Net Ip : Type 0} (net : Network Net Ip) (trusted : List Net) (next : Handler)
    (request : Request) (headers : Dict String)
    → (seen : Request) × (trusted_proxy_middleware net trusted next request headers
        ≡ next seen headers)
      × (seen.method ≡ request.method)
      × (seen.remote_addr ≡ request.remote_addr)
      × ((name : String)
          → lookup name seen.headers ≡ (
              if not (is_trusted net trusted request) && is_forwarded name
              then none
              else lookup name request.headers))
unfolding trusted_proxy_middleware
trusted_proxy_middleware_lem net trusted next request headers =
    elim (Bool-cases (is_trusted net trusted request)) [
      | inl t ↦ rw t (request, refl, refl, refl, λ name. refl)
      | inr f ↦ rw f (
        record request { headers = strip_forwarded request.headers },
        refl,
        refl,
        refl,
        λ name. lookup-strip_forwarded name request.headers,
      )
    ]

abbrev pub allow_origin : String
allow_origin = "Access-Control-Allow-Origin"

lookup-allow :
    (origin : String) (headers : Dict String)
    → lookup allow_origin (allow origin headers) ≡ some origin
unfolding allow
lookup-allow origin headers = simp (lookup-insert)

lookup-preflight_headers :
    (headers : Dict String)
    → lookup allow_origin (preflight_headers headers) ≡ lookup allow_origin headers
unfolding preflight_headers
lookup-preflight_headers headers = simp (lookup-insert)

get_sound : (o : Option String) → (get o == "") ≡ false → o ≡ some (get o)
get_sound none h = cc
get_sound (some value) h = refl

-- An allowed request is answered with its own origin.
answer_origin :
    (origins : List String) (next : Handler)
    → ((r : Request) (h : Dict String)
        → lookup allow_origin (next r h).headers ≡ lookup allow_origin h)
    → (request : Request) (headers : Dict String) → is_allowed origins request ≡ true
    → lookup allow_origin (credentialed_cors_middleware origins next request headers).headers
      ≡ some (get (lookup "Origin" request.headers))
unfolding credentialed_cors_middleware
answer_origin origins next keeps request headers allowed =
    let sent = get (lookup "Origin" request.headers) in
    elim (Bool-cases (request.method == "OPTIONS")) [
      | inl o ↦
          rw (allowed, o)
            (lookup-preflight_headers (allow sent headers) ∙ lookup-allow sent headers)
      | inr n ↦ rw (allowed, n) (keeps request (allow sent headers) ∙ lookup-allow sent headers)
    ]

-- If the next handler leaves the header Access-Control-Allow-Origin as it finds it and it is not set
-- before, then an answer that has it names the request's own origin, which is not empty and in the
-- list of allowed origins.
pub credentialed_cors_middleware_sound :
    (origins : List String) (next : Handler)
    → ((r : Request) (h : Dict String)
        → lookup allow_origin (next r h).headers ≡ lookup allow_origin h)
    → (request : Request) (headers : Dict String) → lookup allow_origin headers ≡ none
    → (origin : String)
    → lookup allow_origin (credentialed_cors_middleware origins next request headers).headers
      ≡ some origin
    → (lookup "Origin" request.headers ≡ some origin)
      × (origin ≢ "")
      × (member origin origins ≡ true)
unfolding credentialed_cors_middleware is_allowed
credentialed_cors_middleware_sound origins next keeps request headers unset origin h =
    elim (Bool-cases (is_allowed origins request)) [
      | inr refused ↦ absurd (ground (arith, keeps request headers))
      | inl allowed ↦
          let sent = get (lookup "Origin" request.headers) in
          let answered = answer_origin origins next keeps request headers allowed in
          let same : sent ≡ origin = ground arith in
          let named : lookup "Origin" request.headers ≡ some sent =
            get_sound (lookup "Origin" request.headers) (ground arith) in
          (
            named ∙ ap some same,
            λ e. ground (arith, eq_iff sent "", same ∙ e),
            subst (λ x. member x origins ≡ true) same (ground arith),
          )
    ]
