-- ===== src/Features.antt =====
-- internal/platform/features/features.go. The evaluator of the OpenFeature client is a parameter.
use accountable.Prelude.{
  String, Bool, true, false, ◌≡◌, ◌↔◌, ap, Option, none, some, List, [], ◌∷◌, map, Result, ok, err,
  arith,
}
use accountable.Maps.{Dict, lookup}
use accountable.Bootstrap.Dependencies.{FlagEvaluation}

abbrev pub bootstrap_probe_flag : String
bootstrap_probe_flag = "foundation.bootstrap_probe"

abbrev pub flag_type_boolean : String
flag_type_boolean = "boolean"

pub record FlagDeclaration : Type 0 where
  pub key : String
  pub flag_type : String
  pub owner : String
  pub purpose : String
  pub safe_default : Bool
  pub created_on : String
  pub review_by : String

abbrev pub flag_declarations : Dict FlagDeclaration
flag_declarations =
    (
      bootstrap_probe_flag,
      record {
        key = bootstrap_probe_flag;
        flag_type = flag_type_boolean;
        owner = "Temi";
        purpose = "Enable the non-production foundation architecture probe";
        safe_default = false;
        created_on = "2026-08-04";
        review_by = "2026-11-04";
      },
    )
    ∷ []

-- In one of the orders of the map.
abbrev pub declarations : List FlagDeclaration
declarations = map (λ entry. entry.1) flag_declarations

-- The safe default of a flag, `false` for one that is not declared.
abbrev pub safe_default_of : Option FlagDeclaration → Bool
safe_default_of none = false
safe_default_of (some declaration) = declaration.safe_default

-- (value, defaulted, err), for a key and a fallback
abbrev pub Evaluator : Type 0
Evaluator = String → Bool → Result String (Bool × Bool)

abbrev pub evaluated : Bool → Result String (Bool × Bool) → FlagEvaluation
evaluated safe_default (err e) = record { enabled = safe_default; defaulted = true }
evaluated safe_default (ok (value, defaulted)) = record { enabled = value; defaulted = defaulted }

unfoldable pub evaluate_bootstrap_probe : Evaluator → FlagEvaluation
unfolding lookup
evaluate_bootstrap_probe evaluate =
    let safe_default = safe_default_of (lookup bootstrap_probe_flag flag_declarations) in
    evaluated safe_default (evaluate bootstrap_probe_flag safe_default)

-- The probe is enabled only where the evaluator returned `true` for it, asked with the fallback
-- `false`.
pub evaluate_bootstrap_probe_iff :
    (evaluate : Evaluator)
    → ((evaluate_bootstrap_probe evaluate).enabled ≡ true)
      ↔ ((defaulted : Bool) × (evaluate "foundation.bootstrap_probe" false ≡ ok (true, defaulted)))
unfolding evaluate_bootstrap_probe
evaluate_bootstrap_probe_iff evaluate = evaluated_iff (evaluate bootstrap_probe_flag false)
  where
    evaluated_iff :
        (answer : Result String (Bool × Bool))
        → ((evaluated false answer).enabled ≡ true)
          ↔ ((defaulted : Bool) × (answer ≡ ok (true, defaulted)))
    evaluated_iff (err e) = (λ h. cc, λ h. cc)
    evaluated_iff (ok (value, defaulted)) =
        (λ h. (defaulted, ap (λ v. ok (v, defaulted)) h), λ h. ground (arith, h.1))
