-- ===== src/Policy/Evaluate.antt =====
-- Evaluate of internal/tofupolicy/policy.go and `run` of cmd/tofupolicy/main.go. The `flag`
-- package and os.ReadFile are parameters of `run`.
pub mod Laws
use Prim.Native.String.{◌++◌ as concat}
use accountable.Prelude.{
  ℕ, String, Bool, true, false, not, ◌||◌, List, [], ◌∷◌, ◌++◌, map, length, Option, none, some,
  ◌==◌, if◌then◌else◌, eqb, Result, ok, err, ◌>>=◌, ◌>>◌, reject,
}
use accountable.Maps.{Dict, lookup, insert}
use accountable.Json.{Json}
use accountable.Policy.{
  Violation, PlannedResource, ResourceChange, Plan, Decoders, flatten_planned_resources,
}
use accountable.Policy.Values.{account_id_pattern}
use accountable.Policy.Accounts.{account_violations}
use accountable.Policy.Images.{task_image_proofs, s3_public_access_block_targets}
use accountable.Policy.Check.{resource_violations}
use accountable.Policy.Order.{sort_violations}

unfoldable pub changed_resources : List ResourceChange → List PlannedResource
changed_resources [] = []
changed_resources (change ∷ changes) =
    let rest = changed_resources changes in
    elim change.after [
      | none ↦ rest
      | some after ↦
          record {
            address = change.address;
            type = change.type;
            values = after;
            unknown = change.after_unknown;
          }
          ∷ rest
    ]

-- the loop that fills unknownByAddress
unfoldable pub unknown_by_address : List ResourceChange → Dict (Dict Json) → Dict (Dict Json)
unknown_by_address [] unknowns = unknowns
unknown_by_address (change ∷ changes) unknowns =
    unknown_by_address changes (insert change.address change.after_unknown unknowns)

-- A missing address leaves the nil map, which reads as the empty one.
abbrev pub or_empty : Option (Dict Json) → Dict Json
or_empty none = []
or_empty (some unknown) = unknown

abbrev pub with_unknown : Dict (Dict Json) → PlannedResource → PlannedResource
with_unknown unknowns r = record r { unknown = or_empty (lookup r.address unknowns) }

-- The resources of the planned values; of the changes if there are none.
unfoldable pub resources_of : List PlannedResource → List ResourceChange → List PlannedResource
resources_of [] changes = changed_resources changes
resources_of (r ∷ rs) changes = map (with_unknown (unknown_by_address changes [])) (r ∷ rs)

unfoldable pub plan_resources : Plan → List PlannedResource
unfolding resources_of flatten_planned_resources
plan_resources plan =
    resources_of (flatten_planned_resources plan.planned_root) plan.resource_changes

pub data EvaluateError : Type 0 where
  bad_account_id : EvaluateError
  bad_plan_json : EvaluateError

unfoldable pub decode : Option Plan → Result EvaluateError Plan
decode none = err bad_plan_json
decode (some plan) = ok plan

-- The violations before they are sorted.
unfoldable pub found_violations : Decoders → Plan → String → List Violation
found_violations go plan expected_account_id =
    account_violations go expected_account_id plan.provider_config
    ++ resource_violations go (plan_resources plan) (task_image_proofs go plan)
        (s3_public_access_block_targets go plan)

unfoldable pub evaluate : Decoders → String → String → Result EvaluateError (List Violation)
unfolding decode
evaluate go payload expected_account_id =
    reject (not (account_id_pattern expected_account_id)) bad_account_id
    >> (decode (go.decode_plan payload) >>= λ plan.
        ok (sort_violations (found_violations go plan expected_account_id)))

-- The parsed command line: what is left of it, and the two flags.
pub record Flags : Type 0 where
  pub arguments : List String
  pub account_id : String
  pub plan : String

pub data RunError : Type 0 where
  bad_flags : RunError
  usage : RunError
  unreadable_plan : RunError
  evaluation : EvaluateError → RunError
  rejected : ℕ → RunError

-- What a run writes, line by line, and how it ends.
pub record Outcome : Type 0 where
  pub stdout : List String
  pub stderr : List String
  pub result : Result RunError (Unit {0})

abbrev failure : RunError → Outcome
failure e = record { stdout = []; stderr = []; result = err e }

abbrev line : Violation → String
line v = concat v.address (concat ": " v.message)

report : Result EvaluateError (List Violation) → Outcome
report (err e) = failure (evaluation e)
report (ok []) = record { stdout = "saved-plan-policy: pass" ∷ []; stderr = []; result = ok tt }
report (ok (v ∷ vs)) = record {
  stdout = [];
  stderr = map line (v ∷ vs);
  result = err (rejected (length (v ∷ vs)));
}

abbrev is_empty : List String → Bool
is_empty [] = true
is_empty _ = false

run_with : Decoders → Option String → String → Outcome
unfolding report
run_with go none account_id = failure unreadable_plan
run_with go (some payload) account_id = report (evaluate go payload account_id)

run_flags : Decoders → (String → Option String) → Option Flags → Outcome
unfolding run_with
run_flags go read_file none = failure bad_flags
run_flags go read_file (some flags) =
    if not (is_empty flags.arguments) || flags.account_id == "" || flags.plan == ""
    then failure usage
    else run_with go (read_file flags.plan) flags.account_id

unfoldable pub run :
    Decoders → (List String → Option Flags) → (String → Option String) → List String → Outcome
unfolding run_flags
run go parse_flags read_file args = run_flags go read_file (parse_flags args)
