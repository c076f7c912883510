-- ===== src/Apierror.antt =====
-- internal/apierror/problem.go. An error is the chain that errors.Is and errors.As walk; the context
-- is the identity that it carries, and the identifier that uuid.NewV7 makes is a parameter.
pub mod EnsureSafe
pub mod MessageKey
use accountable.Prelude.{
  ℕ, String, Bool, true, false, ◌||◌, Option, none, some, List, [], ◌∷◌, any, map, if◌then◌else◌,
}
use accountable.Go.{Duration, pos, not_positive}

pub data Category : Type 0 where
  invalid_input : Category
  unauthenticated : Category
  forbidden : Category
  not_found : Category
  already_exists : Category
  failed_precondition : Category
  stale_version : Category
  conflict : Category
  quota_exceeded : Category
  rate_limited : Category
  deadline_exceeded : Category
  out_of_range : Category
  not_implemented : Category
  unavailable : Category
  data_loss : Category
  internal_failure : Category
  other : String → Category

-- string(category)
unfoldable pub category_text : Category → String
category_text invalid_input = "invalid_input"
category_text unauthenticated = "unauthenticated"
category_text forbidden = "forbidden"
category_text not_found = "not_found"
category_text already_exists = "already_exists"
category_text failed_precondition = "failed_precondition"
category_text stale_version = "stale_version"
category_text conflict = "conflict"
category_text quota_exceeded = "quota_exceeded"
category_text rate_limited = "rate_limited"
category_text deadline_exceeded = "deadline_exceeded"
category_text out_of_range = "out_of_range"
category_text not_implemented = "not_implemented"
category_text unavailable = "unavailable"
category_text data_loss = "data_loss"
category_text internal_failure = "internal_failure"
category_text (other text) = text

-- The codes of connect that the source names, and any other one by its number.
pub data Code : Type 0 where
  code_invalid_argument : Code
  code_unauthenticated : Code
  code_permission_denied : Code
  code_not_found : Code
  code_already_exists : Code
  code_failed_precondition : Code
  code_aborted : Code
  code_resource_exhausted : Code
  code_deadline_exceeded : Code
  code_out_of_range : Code
  code_unimplemented : Code
  code_unavailable : Code
  code_data_loss : Code
  code_internal : Code
  code_other : ℕ → Code

unfoldable pub connect_code : Category → Code
connect_code invalid_input = code_invalid_argument
connect_code unauthenticated = code_unauthenticated
connect_code forbidden = code_permission_denied
connect_code not_found = code_not_found
connect_code already_exists = code_already_exists
connect_code failed_precondition = code_failed_precondition
connect_code stale_version = code_aborted
connect_code conflict = code_aborted
connect_code quota_exceeded = code_resource_exhausted
connect_code rate_limited = code_resource_exhausted
connect_code deadline_exceeded = code_deadline_exceeded
connect_code out_of_range = code_out_of_range
connect_code not_implemented = code_unimplemented
connect_code unavailable = code_unavailable
connect_code data_loss = code_data_loss
connect_code internal_failure = code_internal
connect_code (other text) = code_internal

pub record FieldViolation : Type 0 where
  pub field_path : String
  pub code : String

pub record Identity : Type 0 where
  pub request_id : String
  pub trace_id : String

pub record ProblemDetail : Type 0 where
  pub code : String
  pub message_key : String
  pub problem_id : String
  pub request_id : String
  pub field_violations : List FieldViolation
  pub retry_after : Option Duration

-- A detail of a connect error: a problem, another message, or one whose Value fails.
pub data Detail : Type 0 where
  problem : ProblemDetail → Detail
  foreign : Detail
  undecodable : Detail

pub record ConnectError : Type 0 where
  pub code : Code
  pub details : List Detail

-- A connect error wraps the error that it was made of.
pub data Error : Type 0 where
  canceled : Error
  context_deadline : Error
  opaque : String → Error
  wrapped : String → Error → Error
  connect : ConnectError → Error → Error

-- Whether connect.NewErrorDetail encodes the detail, and the new problem identifier.
pub record Environment : Type 0 where
  pub encodes : Bool
  pub problem_id : String
  pub identity : Identity

unfoldable pub new : Environment → Category → String → List FieldViolation → Duration → Error
unfolding category_text connect_code
new env category message_key violations retry_after =
    let detail : Detail = problem (record {
      code = category_text category;
      message_key = message_key;
      problem_id = env.problem_id;
      request_id = env.identity.request_id;
      field_violations = violations;
      retry_after = if not_positive retry_after then none else some retry_after;
    }) in
    connect
      (record { code = connect_code category; details = if env.encodes then detail ∷ [] else [] })
      (opaque "request failed")

-- errors.Is(err, context.Canceled)
unfoldable pub is_canceled : Error → Bool
is_canceled canceled = true
is_canceled context_deadline = false
is_canceled (opaque text) = false
is_canceled (wrapped text e) = is_canceled e
is_canceled (connect c e) = is_canceled e

-- errors.Is(err, context.DeadlineExceeded)
unfoldable pub is_deadline : Error → Bool
is_deadline canceled = false
is_deadline context_deadline = true
is_deadline (opaque text) = false
is_deadline (wrapped text e) = is_deadline e
is_deadline (connect c e) = is_deadline e

-- errors.As(err, &connectErr): the first connect error of the chain, with what it wraps
unfoldable pub as_connect : Error → Option (ConnectError × Error)
as_connect canceled = none
as_connect context_deadline = none
as_connect (opaque text) = none
as_connect (wrapped text e) = as_connect e
as_connect (connect c e) = some (c, e)

abbrev pub is_problem : Detail → Bool
is_problem (problem d) = true
is_problem foreign = false
is_problem undecodable = false

-- the rest of EnsureSafe, after its two tests
unfoldable pub keep_problem : Environment → Option (ConnectError × Error) → Error
keep_problem env none = new env internal_failure "errors.internal" [] (pos 0)
keep_problem env (some (c, e)) =
    if any is_problem c.details
    then connect c e
    else new env internal_failure "errors.internal" [] (pos 0)

unfoldable pub ensure_safe : Environment → Option Error → Option Error
ensure_safe env none = none
ensure_safe env (some e) =
    if is_canceled e
    then some e
    else if is_deadline e
    then some (new env deadline_exceeded "errors.deadlineExceeded" [] (pos 0))
    else some (keep_problem env (as_connect e))
