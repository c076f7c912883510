-- ===== src/Modules/Probe.antt =====
-- internal/modules/probe/probe.go. Whether the context is done before a timer fires, what a send
-- returns and the cookies of a request are parameters.
pub mod Laws
use accountable.Prelude.{
  ℕ, zero, suc, ◌+◌, ◌%◌, ◌^◌, String, Bool, true, false, not, ◌&&◌, ◌||◌, Option, none, some, List,
  [], ◌∷◌, ◌++◌, Result, ok, err, ltb, leb, eqb, ◌==◌, if◌then◌else◌,
}
use accountable.Go.{ℤ, pos, negsuc, Duration, second, not_positive, int_ltb}
use accountable.Apierror.{
  Identity, Error, Environment, FieldViolation, invalid_input, unavailable, internal_failure, new,
}
use accountable.Server.Interceptors.{Context, Minting, environment}

abbrev pub probe_cookie_name : String
probe_cookie_name = "accountable_architecture_probe"

unfoldable pub correlate : Context → Identity
correlate context = context.identity

-- The attributes of http.Cookie that are set.
pub record Cookie : Type 0 where
  pub name : String
  pub value : String
  pub path : String
  pub max_age : ℕ
  pub secure : Bool
  pub http_only : Bool
  pub same_site_lax : Bool

pub record CookieResponse : Type 0 where
  pub cookie_received : Bool
  pub identity : Identity
  pub set_cookie : Option Cookie

abbrev pub is_present : Option String → Bool
is_present none = false
is_present (some value) = value == "present"

-- `cookies` is what the Cookie method of the request finds under a name.
unfoldable pub cookie_round_trip : Context → (String → Option String) → Bool → CookieResponse
cookie_round_trip context cookies set_cookie = record {
  cookie_received = is_present (cookies probe_cookie_name);
  identity = context.identity;
  set_cookie =
      if set_cookie
      then some (record {
        name = probe_cookie_name;
        value = "present";
        path = "/";
        max_age = 60;
        secure = true;
        http_only = true;
        same_site_lax = true;
      })
      else none;
}

pub data FailureKind : Type 0 where
  kind_invalid_input : FailureKind
  kind_unavailable : FailureKind
  kind_internal_failure : FailureKind
  kind_other : ℕ → FailureKind

abbrev pub kind_violation : String → List FieldViolation
kind_violation code = record { field_path = "kind"; code = code } ∷ []

unfoldable pub fail : Environment → FailureKind → Error
fail env kind_invalid_input =
    new env invalid_input "errors.invalidInput" (kind_violation "invalid_failure_kind") (pos 0)
fail env kind_unavailable = new env unavailable "errors.unavailable" [] (pos second)
fail env kind_internal_failure = new env internal_failure "errors.internal" [] (pos 0)
fail env (kind_other number) =
    new env invalid_input "errors.invalidInput" (kind_violation "required") (pos 0)

abbrev pub invalid_request : Environment → Error
invalid_request env = new env invalid_input "errors.invalidInput" [] (pos 0)

abbrev pub or_default : Duration → Option Duration → Duration
or_default duration none = duration
or_default duration (some given) = given

-- The answer, and the duration of the timer that was started. `done` is ctx.Err() where the context
-- is done before a timer of that duration fires.
unfoldable pub wait :
    Environment
    → Option Duration
    → (Duration → Option Error)
    → Result Error Identity × Option Duration
wait env given done =
    let delay = or_default (pos 10_000_000_000) given in
    if not_positive delay || int_ltb (pos 30_000_000_000) delay
    then (err (invalid_request env), none)
    else (fired (done delay), some delay)
  where
    fired : Option Error → Result Error Identity
    fired none = ok env.identity
    fired (some e) = err e

-- `pause` is ctx.Err() where the context is done before the timer of a sequence number fires, `send`
-- the error of its Send.
pub record StreamCalls : Type 0 where
  pub pause : ℕ → Option Error
  pub send : ℕ → Option Error

abbrev pub sent_or_failed :
    Option Error → Option (Option Error × List ℕ) → List ℕ → Option (Option Error × List ℕ)
sent_or_failed none next sent = next
sent_or_failed (some e) next sent = some (some e, sent)

-- The loop over uint32 sequence numbers: its error and the numbers that were sent, or `none` when
-- the fuel is used up.
unfoldable pub stream_loop :
    StreamCalls → Bool → ℕ → ℕ → ℕ → List ℕ → Option (Option Error × List ℕ)
stream_loop calls pauses count zero sequence sent = none
stream_loop calls pauses count (suc fuel) sequence sent =
    let rest =
      stream_loop calls pauses count fuel ((sequence + 1) % 2 ^ 32) (sent ++ (sequence ∷ [])) in
    if leb sequence count
    then sent_or_failed (if ltb 1 sequence && pauses then calls.pause sequence else none)
        (sent_or_failed (calls.send sequence) rest sent) sent
    else some (none, sent)

unfoldable pub stream :
    StreamCalls → Environment → ℕ → ℕ → Option Duration → Option (Option Error × List ℕ)
unfolding stream_loop
stream calls env fuel count given =
    if eqb count 0 || ltb 20 count
    then some (some (invalid_request env), [])
    else let interval = or_default (pos 25_000_000) given in
      if int_ltb interval (pos 0) || int_ltb (pos second) interval
      then some (some (invalid_request env), [])
      else stream_loop calls (int_ltb (pos 0) interval) count fuel 1 []
