-- ===== src/Policy/Images.antt =====
-- The walks of policy.go over the plan's configuration: taskImageProofs and
-- s3PublicAccessBlockTargets. A map that only ever holds `true` is the list of its keys.
use Prim.Native.String.{◌++◌ as concat}
use accountable.Prelude.{
  String, Bool, not, ◌&&◌, List, [], ◌∷◌, any, Option, none, some, ◌==◌, if◌then◌else◌,
}
use accountable.Text.{split}
use accountable.Json.{Json, as_string, string_or_empty}
use accountable.Maps.{Dict, lookup, insert, add}
use accountable.Policy.{
  RawMessage, Expression, ConfigurationResource, ConfigurationModule, configuration, ModuleCalls,
  no_calls, call, Plan, Decoders,
}
use accountable.Policy.Values.{image_uri_pattern}

unfoldable pub expression_references_variable : Expression → String → Bool
expression_references_variable candidate name =
    any (λ reference. reference == concat "var." name) candidate.references

-- A missing expression is the empty payload.
abbrev payload : Option RawMessage → RawMessage
payload none = ""
payload (some raw) = raw

-- The image URI that a module call passes on: a constant, the caller's own, or none.
unfoldable pub child_image_uri : Option Expression → String → String
child_image_uri none image_uri = ""
child_image_uri (some expression) image_uri = elim (as_string expression.constant_value) [
  | some constant ↦ constant
  | none ↦ if expression_references_variable expression "image_uri" then image_uri else ""
]

abbrev in_module : String → String → String
in_module prefix name = concat prefix (concat "module." (concat name "."))

module _ (go : Decoders) where
  -- decodeExpression, which ignores the error
  abbrev pub decode_expression : Option RawMessage → Expression
  decode_expression raw = (go.decode_expression (payload raw)).0

  abbrev proves_image : String → ConfigurationResource → Bool
  proves_image image_uri r =
      r.type == "aws_ecs_task_definition"
      && image_uri_pattern image_uri
      && expression_references_variable
          (decode_expression (lookup "container_definitions" r.expressions)) "image_uri"

  resource_proofs : List ConfigurationResource → String → String → List String → List String
  resource_proofs [] prefix image_uri proofs = proofs
  resource_proofs (r ∷ rs) prefix image_uri proofs =
      resource_proofs rs prefix image_uri
        (if proves_image image_uri r then add (concat prefix r.address) proofs else proofs)

  unfoldable mutual
    unfolding resource_proofs

    pub walk_configuration_images :
        ConfigurationModule → String → String → List String → List String
    walk_configuration_images (configuration resources calls) prefix image_uri proofs =
        walk_calls_images calls prefix image_uri (resource_proofs resources prefix image_uri proofs)

    pub walk_calls_images : ModuleCalls → String → String → List String → List String
    walk_calls_images no_calls prefix image_uri proofs = proofs
    walk_calls_images (call name expressions m calls) prefix image_uri proofs =
        walk_calls_images calls prefix image_uri (
          walk_configuration_images m (in_module prefix name)
            (child_image_uri (lookup "image_uri" expressions) image_uri) proofs)

  root_image_uri : Option (Option Json) → String
  root_image_uri none = ""
  root_image_uri (some value) = string_or_empty value

  unfoldable pub task_image_proofs : Plan → List String
  unfolding walk_configuration_images root_image_uri
  task_image_proofs plan =
      walk_configuration_images plan.root_configuration ""
        (root_image_uri (lookup "image_uri" plan.variables)) []

-- parts[0] == resourceType && parts[1] != "", of at least two parts
address_of : String → List String → Option String
address_of resource_type (type ∷ name ∷ rest) =
    if type == resource_type && not (name == "") then some (concat type (concat "." name)) else none
address_of resource_type _ = none

unfoldable pub referenced_resource_address : String → String → Option String
unfolding address_of split
referenced_resource_address reference resource_type = address_of resource_type (split "." reference)

-- The loop over the references, which stops at the first bucket.
first_bucket : List String → Option String
first_bucket [] = none
first_bucket (reference ∷ references) =
    elim (referenced_resource_address reference "aws_s3_bucket") [
      | some address ↦ some address
      | none ↦ first_bucket references
    ]

module _ (go : Decoders) where
  resource_targets : List ConfigurationResource → String → Dict String → Dict String
  unfolding first_bucket
  resource_targets [] prefix targets = targets
  resource_targets (r ∷ rs) prefix targets = resource_targets rs prefix (
      if not (r.type == "aws_s3_bucket_public_access_block")
      then targets
      else elim (first_bucket (decode_expression go (lookup "bucket" r.expressions)).references) [
        | none ↦ targets
        | some address ↦ insert (concat prefix r.address) (concat prefix address) targets
      ])

  unfoldable mutual
    unfolding resource_targets

    pub walk_configuration_s3_blocks : ConfigurationModule → String → Dict String → Dict String
    walk_configuration_s3_blocks (configuration resources calls) prefix targets =
        walk_calls_s3_blocks calls prefix (resource_targets resources prefix targets)

    pub walk_calls_s3_blocks : ModuleCalls → String → Dict String → Dict String
    walk_calls_s3_blocks no_calls prefix targets = targets
    walk_calls_s3_blocks (call name expressions m calls) prefix targets =
        walk_calls_s3_blocks calls prefix
          (walk_configuration_s3_blocks m (in_module prefix name) targets)

  unfoldable pub s3_public_access_block_targets : Plan → Dict String
  unfolding walk_configuration_s3_blocks
  s3_public_access_block_targets plan = walk_configuration_s3_blocks plan.root_configuration "" []
