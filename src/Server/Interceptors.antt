-- ===== src/Server/Interceptors.antt =====
-- The interceptors of internal/server, and their order in cmd/api/serve.go. The handler changes a
-- state that it is given; an instant is a number of nanoseconds.
pub mod Laws
use accountable.Prelude.{
  ℕ, String, Bool, true, false, not, ◌&&◌, ◌||◌, Option, none, some, List, [], ◌∷◌, leb, eqb,
  if◌then◌else◌,
}
use accountable.Go.{ℤ, pos, Duration, int_ltb}
use accountable.Go.Durations.{◌+ℤ◌}
use accountable.Text.{all_chars, rune_count}
use accountable.Apierror.{Identity, Error, Environment, unavailable, new, ensure_safe}

-- ^[A-Za-z0-9._:-]{1,128}$
abbrev pub is_trace_char : ℕ → Bool
is_trace_char c =
    (leb b'0' c && leb c b'9')
    || (leb b'A' c && leb c b'Z')
    || (leb b'a' c && leb c b'z')
    || eqb c b'.'
    || eqb c b'_'
    || eqb c b':'
    || eqb c b'-'

unfoldable pub safe_trace_id : String → Bool
unfolding all_chars rune_count
safe_trace_id id = all_chars is_trace_char id && leb 1 (rune_count id) && leb (rune_count id) 128

-- What the parts of a call see: the identity and the deadline of its context.
pub record Context : Type 0 where
  pub identity : Identity
  pub deadline : Option ℤ

-- The results of uuid.NewV7 for the request, the trace and a problem, and whether a detail encodes.
pub record Minting : Type 0 where
  pub request : Option String
  pub trace : Option String
  pub problem_id : String
  pub encodes : Bool

abbrev pub environment : Minting → Context → Environment
environment minting context = record {
  encodes = minting.encodes;
  problem_id = minting.problem_id;
  identity = context.identity;
}

-- uuid.Nil on an error
abbrev pub or_nil : Option String → String
or_nil none = "00000000-0000-0000-0000-000000000000"
or_nil (some id) = id

unfoldable pub request_identity : Minting → String → Identity
request_identity minting requested = record {
  request_id = or_nil minting.request;
  trace_id = if safe_trace_id requested then requested else or_nil minting.trace;
}

pub record UnaryResponse : Type 0 where
  pub request_id_header : Option String
  pub trace_id_header : Option String
  pub message : String

-- (connect.AnyResponse, error), and the handler's state after the call
abbrev pub Answer : Type 0 → Type 0
Answer S = Option UnaryResponse × Option Error × S

abbrev pub Unary : Type 0 → Type 0
Unary S = Context → S → Answer S

abbrev pub with_identity_headers : Identity → Option UnaryResponse → Option UnaryResponse
with_identity_headers identity none = none
with_identity_headers identity (some response) = some (record {
  request_id_header = some identity.request_id;
  trace_id_header = some identity.trace_id;
  message = response.message;
})

-- context.WithTimeout: the earlier of the two deadlines
abbrev pub earlier : Option ℤ → ℤ → Option ℤ
earlier none b = some b
earlier (some a) b = if int_ltb a b then some a else some b

abbrev pub is_ready : Option Bool → Bool
is_ready none = false
is_ready (some ready) = ready

module _ {S : Type 0} (minting : Minting) where
  abbrev pub made_safe : Identity → Context → Answer S → Answer S
  made_safe identity context (response, error, s) =
      (with_identity_headers identity response, ensure_safe (environment minting context) error, s)

  -- `requested` is the X-Trace-ID header of the request.
  unfoldable pub boundary_unary : String → Unary S → Unary S
  unfolding request_identity
  boundary_unary requested next context s =
      let identity = request_identity minting requested in
      let context : Context = record { identity = identity; deadline = context.deadline } in
      made_safe identity context (next context s)

  -- A nil `Ready` is `none`; otherwise what it returns.
  unfoldable pub availability_unary : Option Bool → Unary S → Unary S
  availability_unary ready next context s = if is_ready ready then next context s else (
    none,
    some (new (environment minting context) unavailable "errors.unavailable" [] (pos 0)),
    s,
  )

  unfoldable pub deadline_unary : ℤ → Duration → Unary S → Unary S
  deadline_unary now timeout next context s =
      next
        (record {
          identity = context.identity;
          deadline = earlier context.deadline (now +ℤ timeout);
        })
        s

  -- connect.WithInterceptors(boundary, availability, deadline): the first is the outermost.
  unfoldable pub unary_chain : String → Option Bool → ℤ → Duration → Unary S → Unary S
  unfolding boundary_unary availability_unary deadline_unary
  unary_chain requested ready now timeout handler =
      boundary_unary requested (availability_unary ready (deadline_unary now timeout handler))

  -- Streams: the headers of the response are set before the handler runs.
  abbrev pub safe_stream : Identity → Context → Option Error × S → Identity × Option Error × S
  safe_stream identity context (error, s) =
      (identity, ensure_safe (environment minting context) error, s)

  unfoldable pub boundary_stream :
      String → (Context → S → Option Error × S) → Context → S → Identity × Option Error × S
  unfolding request_identity
  boundary_stream requested next context s =
      let identity = request_identity minting requested in
      let context : Context = record { identity = identity; deadline = context.deadline } in
      safe_stream identity context (next context s)

  unfoldable pub availability_stream :
      Option Bool → (Context → S → Option Error × S) → Context → S → Option Error × S
  availability_stream ready next context s =
      if is_ready ready
      then next context s
      else (some (new (environment minting context) unavailable "errors.unavailable" [] (pos 0)), s)

  unfoldable pub deadline_stream :
      ℤ → Duration → (Context → S → Option Error × S) → Context → S → Option Error × S
  deadline_stream now timeout next context s =
      next
        (record {
          identity = context.identity;
          deadline = earlier context.deadline (now +ℤ timeout);
        })
        s

  unfoldable pub stream_chain :
      String
      → Option Bool
      → ℤ
      → Duration
      → (Context → S → Option Error × S)
      → Context
      → S
      → Identity × Option Error × S
  unfolding boundary_stream availability_stream deadline_stream
  stream_chain requested ready now timeout handler =
      boundary_stream requested (availability_stream ready (deadline_stream now timeout handler))
