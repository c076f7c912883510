-- ===== src/Bootstrap/Config/Safety.antt =====
-- What holds of every configuration that `parse` accepts, and of every failure that it returns.
use accountable.Prelude.{
  String, true, ◌≡◌, ◌≢◌, refl, inl, inr, Option, none, some, Result, ok, err, ◌>>=◌, is_some,
  arith, Option-cases,
}
use accountable.Go.{Parsers}
use accountable.Bootstrap.Config.{Capabilities, Config, FileConfig, TimeFile}
use accountable.Bootstrap.Config.Failure.{
  Failure, nil_dereference, dereference, parse_positive_duration,
}
use accountable.Bootstrap.Config.CapabilityChecks.{parse_capabilities}
use accountable.Bootstrap.Config.Sections.{empty_secrets, parse_secrets, parse_database}
use accountable.Bootstrap.Config.Stores.{empty_storage, empty_crypto, parse_storage, parse_crypto}
use accountable.Bootstrap.Config.Parse.{
  is_managed, check_header, check_requirements, parse_enabled, empty_database, parse,
}
use accountable.Bootstrap.Config.Laws.{
  parse_capabilities-Agrees, parse_capabilities-ne-nil, parse_positive_duration-IsPositive,
  parse_positive_duration-ne-nil, parse_database-SafeDatabase, parse_database-ne-nil, SafeTime,
  parse_time-SafeTime, parse_time-ne-nil,
}
use accountable.Bootstrap.Config.StoreLaws.{
  parse_storage-LocalStorage, parse_storage-ManagedStorage, parse_storage-ne-nil,
  parse_crypto-LocalCrypto, parse_crypto-ManagedCrypto, parse_crypto-ne-nil,
}
use accountable.Bootstrap.Config.Header.{
  check_header-SafeHeader, check_requirements-SafeRequirements, parse_enabled-eq-ok,
  parse_enabled-off, parse_enabled-ne-nil,
}
use accountable.Bootstrap.Config.SecretLaws.{
  parse_secrets-LocalSecrets, parse_secrets-ManagedSecrets, parse_secrets-ne-nil,
}
use accountable.Bootstrap.Config.Safe.{IsSafe}

bind-ne-nil :
    {A B : Type 0} (m : Result Failure A)
    → m ≢ err nil_dereference
    → {f : A → Result Failure B} → ((a : A) → m ≡ ok a → f a ≢ err nil_dereference)
    → (m >>= f) ≢ err nil_dereference
bind-ne-nil (ok a) n k h = k a refl h
bind-ne-nil (err e) n k h = n (ground arith)

dereference-ne-nil :
    {A : Type 0} (o : Option A) → is_some o ≡ true → dereference o ≢ err nil_dereference
dereference-ne-nil none e h = cc
dereference-ne-nil (some a) e h = cc

check_header-ne-nil : (raw : FileConfig) → check_header raw ≢ err nil_dereference
unfolding check_header
check_header-ne-nil raw h = ground arith

check_requirements-ne-nil :
    (raw : FileConfig) (c : Capabilities) → check_requirements raw c ≢ err nil_dereference
unfolding check_requirements
check_requirements-ne-nil raw c h = ground arith

-- The stages of a run of `parse` that ends with `c`.
record Stages (go : Parsers) (config_path fingerprint : String) (raw : FileConfig) (c : Config)
    : Type 0 where
  header : check_header raw ≡ ok tt
  capabilities : parse_capabilities raw ≡ ok c.capabilities
  requirements : check_requirements raw c.capabilities ≡ ok tt
  check_timeout :
      parse_positive_duration go "foundation_check_timeout" raw.check_timeout ≡ ok c.check_timeout
  readiness_probe_interval :
      parse_positive_duration go "readiness_probe_interval" raw.readiness_probe_interval
      ≡ ok c.readiness_probe_interval
  secrets :
      parse_enabled c.capabilities.secrets raw.secrets empty_secrets
        (parse_secrets go raw.environment (is_managed raw) raw.aws_region config_path)
      ≡ ok c.secrets
  database :
      parse_enabled c.capabilities.postgres raw.postgres empty_database
        (parse_database go (is_managed raw) config_path)
      ≡ ok c.database
  storage :
      parse_enabled c.capabilities.object_storage raw.object_storage empty_storage
        (parse_storage (is_managed raw) raw.aws_region config_path)
      ≡ ok c.storage
  crypto :
      parse_enabled c.capabilities.kms raw.kms empty_crypto
        (parse_crypto (is_managed raw) raw.aws_region)
      ≡ ok c.crypto
  schema_version : c.schema_version ≡ raw.schema_version
  revision : c.revision ≡ raw.revision
  environment : c.environment ≡ raw.environment
  deployment_mode : c.deployment_mode ≡ raw.deployment_mode
  cell_id : c.cell_id ≡ raw.cell_id
  aws_region : c.aws_region ≡ raw.aws_region
  runtime_role : c.runtime_role ≡ raw.runtime_role
  marked : c.fingerprint ≡ fingerprint

module _ (go : Parsers) (config_path fingerprint : String) (raw : FileConfig) where
  parse-Stages :
      (c : Config)
      → parse go config_path fingerprint raw ≡ ok c
      → Stages go config_path fingerprint raw c
  unfolding parse
  parse-Stages c h = ground arith

  parse-SafeTime :
      (c : Config)
      → parse go config_path fingerprint raw ≡ ok c
      → (section : TimeFile) × (raw.time ≡ some section)
        × SafeTime go (is_managed raw) section c.time
  unfolding parse
  parse-SafeTime c h = elim (Option-cases raw.time) [
    | inl missing ↦ absurd (ground arith)
    | inr (file, given) ↦
        (file, given, parse_time-SafeTime go (is_managed raw) file c.time (ground arith))
  ]

  -- Every configuration that `parse` returns is safe: the file's header passed the checks and is
  -- kept (version, revision, environment, mode, cell, region and role), the fingerprint is the given
  -- one, the capabilities are the file's, agree with the sections that are there and meet the
  -- requirements between them, and the two durations are positive and the file's. The section of a
  -- capability that is off has no field set. One that is on is the file's, its relative paths taken
  -- from the directory of the file and its durations parsed, and satisfies the rules of its
  -- deployment mode: a local one sets nothing of the managed provider, a managed one nothing of the
  -- local provider. The time section is the file's and has the mode's provider.
  pub parse-IsSafe :
      (c : Config)
      → parse go config_path fingerprint raw ≡ ok c
      → IsSafe go config_path fingerprint raw c
  parse-IsSafe c h =
      let stages = parse-Stages c h in
      record {
        header = check_header-SafeHeader raw stages.header;
        same = (
          stages.schema_version, stages.revision, stages.environment, stages.deployment_mode,
          stages.cell_id, stages.aws_region, stages.runtime_role, stages.marked,
        );
        agrees = parse_capabilities-Agrees raw c.capabilities stages.capabilities;
        requirements = check_requirements-SafeRequirements raw c.capabilities stages.requirements;
        check_timeout =
            parse_positive_duration-IsPositive go _ raw.check_timeout _ stages.check_timeout;
        readiness_probe_interval =
            parse_positive_duration-IsPositive go _ raw.readiness_probe_interval _
              stages.readiness_probe_interval;
        off = (
          parse_enabled-off _ _ _ _ _ stages.secrets,
          parse_enabled-off _ _ _ _ _ stages.database,
          parse_enabled-off _ _ _ _ _ stages.storage,
          parse_enabled-off _ _ _ _ _ stages.crypto,
        );
        local_secrets = λ m e.
            let (section, given, f) = parse_enabled-eq-ok _ _ _ _ _ stages.secrets e in
            (
              section,
              given,
              parse_secrets-LocalSecrets go raw.environment raw.aws_region config_path section
                  c.secrets (cc),
            );
        managed_secrets = λ m e.
            let (section, given, f) = parse_enabled-eq-ok _ _ _ _ _ stages.secrets e in
            (
              section,
              given,
              parse_secrets-ManagedSecrets go raw.environment raw.aws_region config_path section
                  c.secrets (cc),
            );
        database = λ e.
            let (section, given, f) = parse_enabled-eq-ok _ _ _ _ _ stages.database e in
            (
              section,
              given,
              parse_database-SafeDatabase go (is_managed raw) config_path section c.database (f),
            );
        local_storage = λ m e.
            let (section, given, f) = parse_enabled-eq-ok _ _ _ _ _ stages.storage e in
            (
              section,
              given,
              parse_storage-LocalStorage raw.aws_region config_path section c.storage (cc),
            );
        managed_storage = λ m e.
            let (section, given, f) = parse_enabled-eq-ok _ _ _ _ _ stages.storage e in
            (
              section,
              given,
              parse_storage-ManagedStorage raw.aws_region config_path section c.storage (cc),
            );
        local_crypto = λ m e.
            let (section, given, f) = parse_enabled-eq-ok _ _ _ _ _ stages.crypto e in
            (section, given, parse_crypto-LocalCrypto raw.aws_region section c.crypto (cc));
        managed_crypto = λ m e.
            let (section, given, f) = parse_enabled-eq-ok _ _ _ _ _ stages.crypto e in
            (section, given, parse_crypto-ManagedCrypto raw.aws_region section c.crypto (cc));
        time = parse-SafeTime c h;
      }

  -- Whatever the file says, `parse` dereferences no nil pointer: it returns a configuration or a
  -- message.
  pub parse-ne-nil : parse go config_path fingerprint raw ≢ err nil_dereference
  unfolding parse
  parse-ne-nil = bind-ne-nil (check_header raw) (check_header-ne-nil raw) λ _ _.
      bind-ne-nil (parse_capabilities raw) (parse_capabilities-ne-nil raw) λ c given.
        let agrees = parse_capabilities-Agrees raw c given in
        bind-ne-nil (check_requirements raw c) (check_requirements-ne-nil raw c) λ _ _.
          bind-ne-nil _ (parse_positive_duration-ne-nil go _ raw.check_timeout) λ _ _.
            bind-ne-nil _ (parse_positive_duration-ne-nil go _ raw.readiness_probe_interval) λ _ _.
              bind-ne-nil _
                (parse_enabled-ne-nil _ _ _ _ agrees.secrets (parse_secrets-ne-nil go _ _ _ _))
                λ _ _.
                  bind-ne-nil _
                    (parse_enabled-ne-nil _ _ _ _ agrees.postgres (parse_database-ne-nil go _ _))
                    λ _ _.
                      bind-ne-nil _
                        (parse_enabled-ne-nil _ _ _ _ agrees.object_storage
                          (parse_storage-ne-nil _ _ _))
                        λ _ _.
                          bind-ne-nil _
                            (parse_enabled-ne-nil _ _ _ _ agrees.kms (parse_crypto-ne-nil _ _))
                            λ _ _.
                              bind-ne-nil (dereference raw.time)
                                (dereference-ne-nil raw.time agrees.time)
                                λ file _.
                                  bind-ne-nil _ (parse_time-ne-nil go _ file) λ _ _. (λ h. cc)
