-- ===== src/Policy.antt =====
-- internal/tofupolicy/policy.go: the policy on saved OpenTofu plans.
pub mod Values
pub mod Accounts
pub mod Images
pub mod Check
pub mod Order
pub mod Evaluate
use accountable.Prelude.{String, Bool, List, [], ◌∷◌, ◌++◌, Option}
use accountable.Json.{Json}
use accountable.Maps.{Dict}

pub record Violation : Type 0 where
  pub address : String
  pub message : String

-- A json.RawMessage is its text.
abbrev pub RawMessage : Type 0
RawMessage = String

pub record ProviderConfiguration : Type 0 where
  pub expressions : Dict RawMessage

pub record Expression : Type 0 where
  pub constant_value : Option Json
  pub references : List String

pub record ConfigurationResource : Type 0 where
  pub address : String
  pub type : String
  pub expressions : Dict RawMessage

-- configurationModule and its map of module calls
mutual
  pub data ConfigurationModule : Type 0 where
    configuration : List ConfigurationResource → ModuleCalls → ConfigurationModule

  pub data ModuleCalls : Type 0 where
    no_calls : ModuleCalls
    call : String → Dict Expression → ConfigurationModule → ModuleCalls → ModuleCalls

pub record PlannedResource : Type 0 where
  pub address : String
  pub type : String
  pub values : Dict Json
  pub unknown : Dict Json

-- plannedModule and its list of children
mutual
  pub data PlannedModule : Type 0 where
    planned : List PlannedResource → PlannedModules → PlannedModule

  pub data PlannedModules : Type 0 where
    no_children : PlannedModules
    child : PlannedModule → PlannedModules → PlannedModules

-- `after` is `none` for null.
pub record ResourceChange : Type 0 where
  pub address : String
  pub type : String
  pub after : Option (Dict Json)
  pub after_unknown : Dict Json

pub record Plan : Type 0 where
  pub provider_config : Dict ProviderConfiguration
  pub root_configuration : ConfigurationModule
  pub planned_root : PlannedModule
  pub resource_changes : List ResourceChange
  pub variables : Dict (Option Json)

-- encoding/json into the program's types. An expression that fails to decode leaves what was
-- decoded before the error, with `false`.
pub record Decoders : Type 0 where
  pub decode_plan : String → Option Plan
  pub decode_expression : RawMessage → Expression × Bool
  pub decode_images : String → Option (List String)

-- flattenPlannedResources
unfoldable mutual
  pub flatten_planned_resources : PlannedModule → List PlannedResource
  flatten_planned_resources (planned resources children) = resources ++ flatten_children children

  pub flatten_children : PlannedModules → List PlannedResource
  flatten_children no_children = []
  flatten_children (child m children) = flatten_planned_resources m ++ flatten_children children
