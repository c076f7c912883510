-- ===== src/Tests/Policies.antt =====
-- Two saved plans: one that keeps the policy, and one with a public load balancer.
use mathlib.Core.List.{Perm}
use mathlib.Core.List.Perm
use accountable.Prelude.{
  String, true, false, ◌≡◌, ◌↔◌, refl, Option, none, some, List, [], ◌∷◌, ◌==◌, if◌then◌else◌, ok,
}
use accountable.Json.{bool, str, arr, item, nil}
use accountable.Maps.{lookup, insert, member, add}
use accountable.Policy.{
  Violation, Expression, configuration, no_calls, planned, no_children, PlannedResource, Plan,
  Decoders,
}
use accountable.Policy.Values.{account_id_pattern, boolean, explicit_false, has_resource_type}
use accountable.Policy.Accounts.{account_violations}
use accountable.Policy.Images.{task_image_proofs, s3_public_access_block_targets}
use accountable.Policy.Check.{
  is_complete_block, rule_violations, scan_resource, has_known_name, resource_violations,
}
use accountable.Policy.Order.{
  string_ltb, precedes, insert_violation, sort_violations, Ordered, sort_violations-perm,
}
use accountable.Policy.Evaluate.{
  resources_of, unknown_by_address, plan_resources, found_violations, decode, evaluate, Flags, run,
}
use accountable.Policy.Evaluate.Laws.{Approved, Passes, evaluate_sound, evaluate-Ordered, run_sound}

abbrev account : String
account = "123456789012"

abbrev pinned : Expression
pinned = record { constant_value = some (arr (item (str account) nil)); references = [] }

abbrev database : PlannedResource
database = record {
  address = "aws_db_instance.main";
  type = "aws_db_instance";
  values =
      ("multi_az", bool true)
      ∷ ("publicly_accessible", bool false)
      ∷ ("storage_encrypted", bool true)
      ∷ [];
  unknown = [];
}

abbrev bucket : PlannedResource
bucket = record {
  address = "aws_s3_bucket.files";
  type = "aws_s3_bucket";
  values = ("bucket", str "files") ∷ [];
  unknown = [];
}

abbrev block : PlannedResource
block = record {
  address = "aws_s3_bucket_public_access_block.files";
  type = "aws_s3_bucket_public_access_block";
  values =
      ("bucket", str "files")
      ∷ ("block_public_acls", bool true)
      ∷ ("block_public_policy", bool true)
      ∷ ("ignore_public_acls", bool true)
      ∷ ("restrict_public_buckets", bool true)
      ∷ [];
  unknown = [];
}

abbrev balancer : PlannedResource
balancer = record {
  address = "aws_lb.web";
  type = "aws_lb";
  values = ("internal", bool false) ∷ [];
  unknown = [];
}

abbrev plan_of : List PlannedResource → Plan
plan_of resources = record {
  provider_config = ("aws", record { expressions = ("allowed_account_ids", "[]") ∷ [] }) ∷ [];
  root_configuration = configuration [] no_calls;
  planned_root = planned resources no_children;
  resource_changes = [];
  variables = [];
}

abbrev decoders : Decoders
decoders = record {
  decode_plan = λ payload.
      if payload == "good"
      then some (plan_of (database ∷ bucket ∷ block ∷ []))
      else some (plan_of (balancer ∷ bucket ∷ []));
  decode_expression = λ raw. (pinned, true);
  decode_images = λ definitions. none;
}

passed : evaluate decoders "good" account ≡ ok []
unfolding evaluate account_id_pattern decode found_violations account_violations lookup
    plan_resources resources_of unknown_by_address task_image_proofs s3_public_access_block_targets
    resource_violations has_resource_type rule_violations boolean explicit_false scan_resource
    insert member add is_complete_block has_known_name sort_violations
passed = refl

evaluate_sound_example :
    (account_id_pattern account ≡ true)
    × (plan : Plan) × (decoders.decode_plan "good" ≡ some plan)
    × Approved decoders account plan
evaluate_sound_example = evaluate_sound decoders "good" account passed

abbrev open_bucket : Violation
open_bucket = record {
  address = "aws_s3_bucket.files";
  message = "S3 bucket has no complete public-access block";
}

abbrev open_balancer : Violation
open_balancer = record { address = "aws_lb.web"; message = "ALB must be internal" }

refused : evaluate decoders "bad" account ≡ ok (open_balancer ∷ open_bucket ∷ [])
unfolding evaluate account_id_pattern decode found_violations account_violations lookup
    plan_resources resources_of unknown_by_address task_image_proofs s3_public_access_block_targets
    resource_violations has_resource_type rule_violations boolean scan_resource insert member add
    has_known_name sort_violations insert_violation precedes string_ltb
refused = refl

evaluate-Ordered_example :
    Ordered (open_balancer ∷ open_bucket ∷ [])
    × (plan : Plan) × (decoders.decode_plan "bad" ≡ some plan)
    × Perm (open_balancer ∷ open_bucket ∷ []) (found_violations decoders plan account)
evaluate-Ordered_example = evaluate-Ordered decoders "bad" account refused

swapped : Perm (open_balancer ∷ open_bucket ∷ []) (open_bucket ∷ open_balancer ∷ [])
swapped = Perm.swap open_bucket open_balancer []

sort_violations-perm_example :
    sort_violations (open_balancer ∷ open_bucket ∷ [])
    ≡ sort_violations (open_bucket ∷ open_balancer ∷ [])
sort_violations-perm_example = sort_violations-perm swapped

abbrev parse_flags : List String → Option Flags
parse_flags args = some (record { arguments = []; account_id = account; plan = "plan.json" })

abbrev read_file : String → Option String
read_file path = some "good"

run_sound_example :
    ((run decoders parse_flags read_file ("--plan" ∷ [])).result ≡ ok tt
      → Passes decoders parse_flags read_file ("--plan" ∷ []))
    × (((run decoders parse_flags read_file ("--plan" ∷ [])).stdout
          ≡ "saved-plan-policy: pass" ∷ [])
        ↔ ((run decoders parse_flags read_file ("--plan" ∷ [])).result ≡ ok tt))
run_sound_example = run_sound decoders parse_flags read_file ("--plan" ∷ [])
