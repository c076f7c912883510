-- ===== src/Policy/Evaluate/Laws.antt =====
-- What Evaluate and the tofupolicy command promise.
use mathlib.Core.List.{Perm, Memᴰ}
use mathlib.Core.List.Perm
use accountable.Prelude.{
  append-eq-nil, String, true, not, ◌||◌, ◌≡◌, ◌↔◌, refl, sym, List, [], ◌∷◌, ◌++◌, Option, none,
  some, ◌==◌, All, is_some, Result, ok, err, arith, Option-cases, Bool-cases, inl, inr,
}
use accountable.Maps.{lookup}
use accountable.Policy.{Violation, PlannedResource, ProviderConfiguration, Plan, Decoders}
use accountable.Policy.Values.{account_id_pattern, has_resource_type}
use accountable.Policy.Accounts.{account_violations, Pinned, is_aws, account_violations_sound}
use accountable.Policy.Images.{task_image_proofs, s3_public_access_block_targets}
use accountable.Policy.Check.{
  resource_violations, all_rule_violations, named_bucket_violations, address_violations,
  scan_resources, empty_scan,
}
use accountable.Policy.Check.Rules.{Compliant, all_rule_violations_sound}
use accountable.Policy.Check.Buckets.{Covered, bucket-Covered}
use accountable.Policy.Order.{
  sort_violations, Ordered, sort_violations-perm_self, sort_violations-Ordered,
}
use accountable.Policy.Evaluate.{
  plan_resources, EvaluateError, decode, found_violations, evaluate, Flags, Outcome, run, report,
  run_with, run_flags, is_empty,
}

-- A saved plan that keeps the policy of an account.
pub record Approved (go : Decoders) (account : String) (plan : Plan) : Type 0 where
  pub default_provider : is_some (lookup "aws" plan.provider_config) ≡ true
  pub providers :
      All
        (λ (p : String × ProviderConfiguration). is_aws p.0 ≡ true → Pinned go account p.1)
        plan.provider_config
  pub resources :
      All
        (Compliant go
          (has_resource_type (plan_resources plan) "aws_wafv2_web_acl")
          (task_image_proofs go plan))
        (plan_resources plan)
  pub buckets :
      {r : PlannedResource}
      → Memᴰ r (plan_resources plan)
      → r.type ≡ "aws_s3_bucket"
      → Covered (s3_public_access_block_targets go plan) (plan_resources plan) r.address

found_violations_sound :
    (go : Decoders) (plan : Plan) (account : String)
    → found_violations go plan account ≡ []
    → Approved go account plan
unfolding found_violations resource_violations
found_violations_sound go plan account h =
    let resources = plan_resources plan in
    let targets = s3_public_access_block_targets go plan in
    let s = scan_resources targets empty_scan resources in
    let (accounts, later) =
      append-eq-nil (account_violations go account plan.provider_config)
        (resource_violations go resources (task_image_proofs go plan) targets) h in
    let (rules, loops) =
      append-eq-nil
        (all_rule_violations go (has_resource_type resources "aws_wafv2_web_acl")
          (task_image_proofs go plan) resources)
        (named_bucket_violations s s.buckets ++ address_violations s s.bucket_addresses) later in
    let (named, addressed) =
      append-eq-nil (named_bucket_violations s s.buckets) (address_violations s s.bucket_addresses)
        loops in
    let (default, providers) = account_violations_sound go account plan.provider_config accounts in
    record {
      default_provider = default;
      providers = providers;
      resources = all_rule_violations_sound go _ _ resources rules;
      buckets = bucket-Covered targets resources named addressed;
    }

module _ (go : Decoders) (payload account : String) where
  -- What a successful evaluation decoded and sorted.
  evaluate-eq-ok :
      {violations : List Violation}
      → evaluate go payload account ≡ ok violations
      → (account_id_pattern account ≡ true)
        × (plan : Plan) × (go.decode_plan payload ≡ some plan)
        × (sort_violations (found_violations go plan account) ≡ violations)
  unfolding evaluate decode
  evaluate-eq-ok {violations} h = elim (Option-cases (go.decode_plan payload)) [
    | inl missing ↦ absurd (ground arith)
    | inr (plan, found) ↦ (ground arith, plan, found, ground arith)
  ]

  -- Evaluate answers with an empty list of violations only for a 12-digit account ID and a payload
  -- that decodes to a plan which keeps the whole policy: the default AWS provider is there, every
  -- AWS provider allows the expected account and no other, every resource is compliant with the
  -- rule of its type, and every S3 bucket has a complete public-access block, one that refers to its
  -- address or that names the bucket planned there.
  pub evaluate_sound :
      evaluate go payload account ≡ ok []
      → (account_id_pattern account ≡ true)
        × (plan : Plan) × (go.decode_plan payload ≡ some plan)
        × Approved go account plan
  evaluate_sound h =
      let (digits, plan, decoded, sorted) = evaluate-eq-ok h in
      let perm = sort_violations-perm_self (found_violations go plan account) in
      let found : found_violations go plan account ≡ [] = sym (Perm.nil-eq (rw sorted at perm)) in
      (digits, plan, decoded, found_violations_sound go plan account found)

  -- When Evaluate succeeds, its list is ordered by address and then message, and it holds the
  -- violations that the checks found on the decoded plan, each as often as they found it.
  pub evaluate-Ordered :
      {violations : List Violation}
      → evaluate go payload account ≡ ok violations
      → Ordered violations
        × (plan : Plan) × (go.decode_plan payload ≡ some plan)
        × Perm violations (found_violations go plan account)
  evaluate-Ordered h =
      let (digits, plan, decoded, sorted) = evaluate-eq-ok h in
      (
        rw sorted at (sort_violations-Ordered (found_violations go plan account)),
        plan,
        decoded,
        rw sorted at (sort_violations-perm_self (found_violations go plan account)),
      )

-- A command line that the tofupolicy command lets pass.
pub record Passes (go : Decoders) (parse_flags : List String → Option Flags)
    (read_file : String → Option String) (args : List String) : Type 0 where
  pub flags : Flags
  pub payload : String
  pub parsed : parse_flags args ≡ some flags
  pub no_arguments : flags.arguments ≡ []
  pub readable : read_file flags.plan ≡ some payload
  pub no_violation : evaluate go payload flags.account_id ≡ ok []

-- An outcome that says on stdout whether it passes.
abbrev Honest : Outcome → Type 0
Honest o = (o.stdout ≡ "saved-plan-policy: pass" ∷ []) ↔ (o.result ≡ ok tt)

report-Honest : (m : Result EvaluateError (List Violation)) → Honest (report m)
unfolding report
report-Honest (err e) = (λ h. cc, λ h. cc)
report-Honest (ok []) = (λ h. refl, λ h. refl)
report-Honest (ok (v ∷ vs)) = (λ h. cc, λ h. cc)

run_with-Honest :
    (go : Decoders) (payload : Option String) (account : String)
    → Honest (run_with go payload account)
unfolding run_with
run_with-Honest go none account = (λ h. cc, λ h. cc)
run_with-Honest go (some text) account = report-Honest (evaluate go text account)

run_flags-Honest :
    (go : Decoders) (read_file : String → Option String) (flags : Option Flags)
    → Honest (run_flags go read_file flags)
unfolding run_flags
run_flags-Honest go read_file none = (λ h. cc, λ h. cc)
run_flags-Honest go read_file (some flags) =
    elim (Bool-cases
      (not (is_empty flags.arguments) || flags.account_id == "" || flags.plan == "")) [
        | inl e ↦ rw e (λ h. cc, λ h. cc)
        | inr e ↦ rw e (run_with-Honest go (read_file flags.plan) flags.account_id)
      ]

report_sound : (m : Result EvaluateError (List Violation)) → (report m).result ≡ ok tt → m ≡ ok []
unfolding report
report_sound (err e) h = cc
report_sound (ok []) h = refl
report_sound (ok (v ∷ vs)) h = cc

run_with_sound :
    (go : Decoders) (payload : Option String) (account : String)
    → (run_with go payload account).result ≡ ok tt
    → (text : String) × (payload ≡ some text) × (evaluate go text account ≡ ok [])
unfolding run_with
run_with_sound go none account h = cc
run_with_sound go (some text) account h = (text, refl, report_sound (evaluate go text account) h)

is_empty_sound : (xs : List String) → is_empty xs ≡ true → xs ≡ []
is_empty_sound [] h = refl
is_empty_sound (x ∷ xs) h = cc

-- The tofupolicy command ends without an error only if its flags parse with no argument left over,
-- the plan file can be read, and Evaluate finds no violation in it; and it prints the line of a
-- passed policy exactly when it ends without an error.
pub run_sound :
    (go : Decoders) (parse_flags : List String → Option Flags) (read_file : String → Option String)
    (args : List String)
    → ((run go parse_flags read_file args).result ≡ ok tt → Passes go parse_flags read_file args)
      × (((run go parse_flags read_file args).stdout ≡ "saved-plan-policy: pass" ∷ [])
          ↔ ((run go parse_flags read_file args).result ≡ ok tt))
unfolding run run_flags
run_sound go parse_flags read_file args = (
  λ h. elim (Option-cases (parse_flags args)) [
    | inl e ↦ absurd (ground arith)
    | inr (flags, e) ↦
        let (payload, readable, passed) =
          run_with_sound go (read_file flags.plan) flags.account_id (ground arith) in
        record {
          flags = flags;
          payload = payload;
          parsed = e;
          no_arguments = is_empty_sound flags.arguments (ground arith);
          readable = readable;
          no_violation = passed;
        }
  ],
  run_flags-Honest go read_file (parse_flags args),
)
