-- ===== src/Bootstrap/Config/CapabilityChecks.antt =====
-- parseCapabilities of internal/bootstrap/config.go.
use Prim.Native.String.{◌++◌ as concat}
use accountable.Prelude.{
  String, Bool, true, false, not, ◌||◌, List, [], ◌∷◌, Option, none, some, Result, ok, err, ◌>>=◌,
  ◌>>◌, is_some,
}
use accountable.Bootstrap.Config.{Capabilities, FileConfig}
use accountable.Bootstrap.Config.Failure.{Failure, message, dereference, refuse}

-- One row of the table of parseCapabilities.
pub record SectionCheck : Type 0 where
  pub name : String
  pub enabled : Option Bool
  pub section : Bool

-- *check.enabled != check.section
abbrev differs : Bool → Bool → Bool
differs true section = not section
differs false section = section

check_section : SectionCheck → Result Failure (Unit {0})
check_section check = elim check.enabled [
  | none ↦
      err (message (concat "capabilities." (concat check.name " must be explicitly true or false")))
  | some enabled ↦ refuse (differs enabled check.section) (
      concat "capabilities."
        (concat check.name (concat " contradicts the " (concat check.name " section"))))
]

check_sections : List SectionCheck → Result Failure (Unit {0})
unfolding check_section
check_sections [] = ok tt
check_sections (check ∷ checks) = do check_section check; check_sections checks

unfoldable pub parse_capabilities : FileConfig → Result Failure Capabilities
unfolding check_sections
parse_capabilities raw = do
  let given = raw.capabilities
  refuse
      (not (is_some given.architecture_probe)
        || not (is_some given.telemetry)
        || not (is_some given.redpanda))
      "every capability must be explicitly true or false"
  check_sections (
      record { name = "postgres"; enabled = given.postgres; section = is_some raw.postgres }
      ∷ record { name = "secrets"; enabled = given.secrets; section = is_some raw.secrets }
      ∷ record { name = "kms"; enabled = given.kms; section = is_some raw.kms }
      ∷ record {
        name = "object_storage";
        enabled = given.object_storage;
        section = is_some raw.object_storage;
      }
      ∷ [])
  telemetry ← dereference given.telemetry
  refuse telemetry "capabilities.telemetry must be false until telemetry is implemented"
  redpanda ← dereference given.redpanda
  refuse redpanda "capabilities.redpanda must be false until Redpanda is implemented"
  refuse (not (is_some raw.time)) "time section is required"
  architecture_probe ← dereference given.architecture_probe
  postgres ← dereference given.postgres
  secrets ← dereference given.secrets
  kms ← dereference given.kms
  object_storage ← dereference given.object_storage
  ok (record {
    architecture_probe = architecture_probe;
    postgres = postgres;
    secrets = secrets;
    kms = kms;
    object_storage = object_storage;
  })
