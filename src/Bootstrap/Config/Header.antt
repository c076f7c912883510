-- ===== src/Bootstrap/Config/Header.antt =====
-- What the checks of the header and of the requirements let through.
use accountable.Prelude.{
  Bool, true, false, ◌≡◌, ◌≢◌, refl, ◌⊎◌, Option, none, some, Result, ok, err, eq_iff, is_some,
  arith,
}
use accountable.Go.{pos}
use accountable.Text.Patterns.{configuration_revision_pattern, cell_id_pattern, aws_region_pattern}
use accountable.Bootstrap.Config.{
  Capabilities, FileConfig, runtime_role_api, runtime_role_migrate, runtime_role_preflight,
  deployment_mode_local, deployment_mode_managed,
}
use accountable.Bootstrap.Config.Failure.{Failure, nil_dereference}
use accountable.Bootstrap.Config.Parse.{is_managed, check_header, check_requirements, parse_enabled}

-- The identity of the process and its deployment.
pub record SafeHeader (raw : FileConfig) : Type 0 where
  pub schema_version : raw.schema_version ≡ pos 1
  pub revision : configuration_revision_pattern raw.revision ≡ true
  pub environment :
      (raw.environment ≡ "development")
      ⊎ (raw.environment ≡ "staging")
      ⊎ (raw.environment ≡ "production")
  pub deployment_mode :
      (raw.deployment_mode ≡ deployment_mode_local)
      ⊎ (raw.deployment_mode ≡ deployment_mode_managed)
  pub managed : raw.environment ≢ "development" → raw.deployment_mode ≡ deployment_mode_managed
  pub cell_id : cell_id_pattern raw.cell_id ≡ true
  pub aws_region : aws_region_pattern raw.aws_region ≡ true
  pub runtime_role :
      (raw.runtime_role ≡ runtime_role_api)
      ⊎ (raw.runtime_role ≡ runtime_role_migrate)
      ⊎ (raw.runtime_role ≡ runtime_role_preflight)

pub check_header-SafeHeader : (raw : FileConfig) → check_header raw ≡ ok tt → SafeHeader raw
unfolding check_header
check_header-SafeHeader raw h = record {
  schema_version = ground arith;
  revision = ground arith;
  environment = ground (
    arith,
    eq_iff raw.environment "development",
    eq_iff raw.environment "staging",
    eq_iff raw.environment "production",
  );
  deployment_mode = ground (
    arith,
    eq_iff raw.deployment_mode deployment_mode_local,
    eq_iff raw.deployment_mode deployment_mode_managed,
  );
  managed = λ n. ground (
    arith,
    eq_iff raw.environment "development",
    eq_iff raw.deployment_mode deployment_mode_managed,
  );
  cell_id = ground arith;
  aws_region = ground arith;
  runtime_role = ground (
    arith,
    eq_iff raw.runtime_role runtime_role_api,
    eq_iff raw.runtime_role runtime_role_migrate,
    eq_iff raw.runtime_role runtime_role_preflight,
  );
}

pub record SafeRequirements (raw : FileConfig) (c : Capabilities) : Type 0 where
  pub probe : raw.environment ≡ "production" → c.architecture_probe ≡ false
  pub postgres : c.postgres ≡ true → c.secrets ≡ true
  pub local_kms : is_managed raw ≡ false → c.kms ≡ true → c.secrets ≡ true

pub check_requirements-SafeRequirements :
    (raw : FileConfig) (c : Capabilities)
    → check_requirements raw c ≡ ok tt
    → SafeRequirements raw c
unfolding check_requirements
check_requirements-SafeRequirements raw c h = record {
  probe = λ p. ground (arith, eq_iff raw.environment "production");
  postgres = λ p. ground arith;
  local_kms = λ p q. ground arith;
}

pub parse_enabled-eq-ok :
    {A B : Type 0} (enabled : Bool) (section : Option A) (empty : B) (f : A → Result Failure B)
    (b : B)
    → parse_enabled enabled section empty f ≡ ok b
    → enabled ≡ true
    → (a : A) × (section ≡ some a) × (f a ≡ ok b)
unfolding parse_enabled
parse_enabled-eq-ok true none empty f b h e = cc
parse_enabled-eq-ok true (some a) empty f b h e = (a, refl, h)
parse_enabled-eq-ok false section empty f b h e = cc

-- The section of a capability that is off has no field set.
pub parse_enabled-off :
    {A B : Type 0} (enabled : Bool) (section : Option A) (empty : B) (f : A → Result Failure B)
    (b : B)
    → parse_enabled enabled section empty f ≡ ok b
    → enabled ≡ false
    → b ≡ empty
unfolding parse_enabled
parse_enabled-off true section empty f b h e = cc
parse_enabled-off false section empty f b h e = ground arith

-- An enabled capability whose section is there is parsed with no nil dereference.
pub parse_enabled-ne-nil :
    {A B : Type 0} (enabled : Bool) (section : Option A) (empty : B) (f : A → Result Failure B)
    → is_some section ≡ enabled
    → ((a : A) → f a ≢ err nil_dereference)
    → parse_enabled enabled section empty f ≢ err nil_dereference
unfolding parse_enabled
parse_enabled-ne-nil true none empty f e n = cc
parse_enabled-ne-nil true (some a) empty f e n = n a
parse_enabled-ne-nil false section empty f e n = cc
