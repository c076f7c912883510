-- ===== src/Bootstrap/Dependencies/NilInterfaces.antt =====
-- Build of internal/bootstrap/dependencies.go calls no nil interface on a parsed configuration.
use accountable.Prelude.{
  ℕ, String, Bool, true, false, ◌≡◌, ◌≢◌, refl, sym, ◌∙◌, Option, none, some, Result, ok, err,
  ◌>>=◌, ◌==◌, or_else, is_some, arith, eq_iff, Bool-cases, Result-cases, inl, inr,
}
use accountable.Go.{Parsers}
use accountable.Crypto.Config.{crypto_provider_local, crypto_provider_aws_kms}
use accountable.Bootstrap.Config.{Config, FileConfig}
use accountable.Bootstrap.Config.Parse.{parse, is_managed}
use accountable.Bootstrap.Config.Safe.{IsSafe}
use accountable.Bootstrap.Config.Safety.{parse-IsSafe}
use accountable.Bootstrap.Dependencies.{
  Failed, foundation_unavailable, nil_interface, Platform, Dependencies, time_health_of, assemble,
  on, call, if_present, if_enabled, value_of, check, build_storage, build_crypto, local_crypto,
  build_base, build_rest, finish, continue, build,
}
use accountable.Bootstrap.Dependencies.Safety.{if_enabled-is_some, build_base-eq-ok}

if_enabled-ne-nil :
    {E A : Type 0} (enabled : Bool) (m : Result (Failed E) A)
    → (enabled ≡ true → m ≢ err nil_interface)
    → if_enabled enabled m ≢ err nil_interface
if_enabled-ne-nil false m n h = cc
if_enabled-ne-nil true (ok x) n h = cc
if_enabled-ne-nil true (err e) n h = n refl (ground arith)

bind-ne-nil :
    {E A B : Type 0} (m : Result (Failed E) A)
    → m ≢ err nil_interface
    → {f : A → Result (Failed E) B} → ((a : A) → m ≡ ok a → f a ≢ err nil_interface)
    → (m >>= f) ≢ err nil_interface
bind-ne-nil (ok a) n k h = k a refl h
bind-ne-nil (err e) n k h = n (ground arith)

call-ne-nil : {E A : Type 0} (m : Result E A) → call m ≢ err nil_interface
call-ne-nil (ok a) h = cc
call-ne-nil (err e) h = cc

if_present-ne-nil :
    {E A : Type 0} (o : Option A) (f : A → Result E (Unit {0})) → if_present o f ≢ err nil_interface
if_present-ne-nil none f h = cc
if_present-ne-nil (some a) f h = call-ne-nil (f a) h

or_else-ne-nil :
    {E A : Type 0} (m : Result (Failed E) A) (e : Failed E)
    → e ≢ nil_interface
    → or_else m e ≢ err nil_interface
or_else-ne-nil (ok a) e n h = cc
or_else-ne-nil (err _) e n h = n (ground arith)

value_of-ne-nil : {E : Type 0} (o : Option String) → value_of {E = E} o ≢ err nil_interface
value_of-ne-nil none h = cc
value_of-ne-nil (some key) h = cc

ok-ne-nil : {E A : Type 0} (m : Result (Failed E) A) {a : A} → m ≡ ok a → m ≢ err nil_interface
ok-ne-nil m h k = cc

unavailable-ne-nil : {E : Type 0} (e : Failed E) → e ≡ foundation_unavailable → e ≢ nil_interface
unavailable-ne-nil e h k = cc

on-ne-nil :
    {E A B : Type 0} (o : Option A) (f : A → Result (Failed E) B)
    → is_some o ≡ true
    → ((a : A) → f a ≢ err nil_interface)
    → on o f ≢ err nil_interface
on-ne-nil none f e n = cc
on-ne-nil (some a) f e n = n a

module _ {E Resolver Database Store Cryptor Aws : Type 0}
    (p : Platform E Resolver Database Store Cryptor Aws) where
  check-ne-nil : (d : Dependencies Database Store Cryptor) → check p d ≢ err nil_interface
  unfolding check
  check-ne-nil d h = ground arith

  build_storage-ne-nil : (config : Config) → build_storage p config ≢ err nil_interface
  unfolding build_storage
  build_storage-ne-nil config h = ground arith

  local_crypto-ne-nil :
      (config : Config) (r : Resolver) → local_crypto p config r ≢ err nil_interface
  local_crypto-ne-nil config r h = ground arith

  build_crypto-ne-nil :
      (config : Config) (resolver : Option Resolver)
      → (config.crypto.provider ≡ crypto_provider_local → is_some resolver ≡ true)
      → build_crypto p config resolver ≢ err nil_interface
  unfolding build_crypto
  build_crypto-ne-nil config resolver has h =
      elim (Bool-cases (config.crypto.provider == crypto_provider_local)) [
        | inl e ↦
            on-ne-nil resolver (local_crypto p config)
              (has ((eq_iff config.crypto.provider crypto_provider_local).0 e))
              (local_crypto-ne-nil config) (rw e at h)
        | inr e ↦ ground arith
      ]

  build_rest-ne-nil :
      (config : Config) (resolver : Option Resolver) (db : Option Database)
      → (config.capabilities.kms ≡ true
          → config.crypto.provider ≡ crypto_provider_local
          → is_some resolver ≡ true)
      → build_rest p config resolver db ≢ err nil_interface
  unfolding build_rest
  build_rest-ne-nil config resolver db has =
      bind-ne-nil (if_enabled config.capabilities.object_storage (build_storage p config))
        (if_enabled-ne-nil _ _ (λ e. build_storage-ne-nil config))
        λ store _.
          bind-ne-nil (if_enabled config.capabilities.kms (build_crypto p config resolver))
            (if_enabled-ne-nil _ _ (λ e. build_crypto-ne-nil config resolver (has e)))
            λ cryptor _.
              bind-ne-nil (check p (assemble p config db store cryptor)) (check-ne-nil _)
                λ _ _. ok-ne-nil (ok (assemble p config db store cryptor)) refl

  build_base-ne-nil :
      (config : Config)
      → (config.capabilities.postgres ≡ true → config.capabilities.secrets ≡ true)
      → build_base p config ≢ err nil_interface
  unfolding build_base
  build_base-ne-nil config has =
      let health = call (p.check_health true (time_health_of config.time)) in
      let source = or_else (call (p.new_source config.secrets)) foundation_unavailable in
      bind-ne-nil health (call-ne-nil (p.check_health true (time_health_of config.time))) λ _ _.
        bind-ne-nil (if_enabled config.capabilities.secrets source)
          (if_enabled-ne-nil _ _ (λ e. or_else-ne-nil _ _ (unavailable-ne-nil _ refl)))
          λ resolver resolved.
            bind-ne-nil
              (if_enabled config.capabilities.postgres
                (on resolver (λ r. call (p.open_database config.database r))))
              (if_enabled-ne-nil _ _ (λ e.
                on-ne-nil resolver _
                  (if_enabled-is_some config.capabilities.secrets source resolved ∙ has e)
                  (λ r. call-ne-nil (p.open_database config.database r))))
              λ db _. ok-ne-nil (ok (resolver, db)) refl

  -- `build` calls no nil interface if the configuration has secrets wherever the database or local
  -- encryption needs them.
  build-ne-nil :
      (config : Config) (opened : ℕ)
      → (config.capabilities.postgres ≡ true → config.capabilities.secrets ≡ true)
      → (config.capabilities.kms ≡ true
          → config.crypto.provider ≡ crypto_provider_local
          → config.capabilities.secrets ≡ true)
      → (build p config opened).1 ≢ err nil_interface
  unfolding build continue finish
  build-ne-nil config opened db kms h = elim (Result-cases (build_base p config)) [
    | inr (e, failed) ↦ build_base-ne-nil config db (ground arith)
    | inl ((resolver, o), based) ↦ elim (Result-cases (build_rest p config resolver o)) [
      | inr (e, failed) ↦
          build_rest-ne-nil config resolver o
            (λ k l. (build_base-eq-ok p config resolver o based).0 ∙ kms k l) (ground arith)
      | inl (d, built) ↦ absurd (ground arith)
    ]
  ]

  local_kms_has_secrets :
      (go : Parsers) (config_path fingerprint : String) (raw : FileConfig) (config : Config)
      → IsSafe go config_path fingerprint raw config
      → config.capabilities.kms ≡ true
      → config.crypto.provider ≡ crypto_provider_local
      → config.capabilities.secrets ≡ true
  local_kms_has_secrets go config_path fingerprint raw config safe k l =
      elim (Bool-cases (is_managed raw)) [
        | inl m ↦
            let same : crypto_provider_aws_kms ≡ crypto_provider_local =
              sym (safe.managed_crypto m k).2.provider ∙ l in
            let test = (eq_iff crypto_provider_aws_kms crypto_provider_local).1 same in cc
        | inr m ↦ safe.requirements.local_kms m k
      ]

  -- Build on a configuration that Parse returned never calls a method of a nil interface: where the
  -- database or local encryption resolves a secret, the configuration has a secret source.
  pub build-of-parse :
      (go : Parsers) (config_path fingerprint : String) (raw : FileConfig) (config : Config)
      → parse go config_path fingerprint raw ≡ ok config
      → (opened : ℕ) → (build p config opened).1 ≢ err nil_interface
  build-of-parse go config_path fingerprint raw config h opened =
      let safe = parse-IsSafe go config_path fingerprint raw config h in
      build-ne-nil config opened safe.requirements.postgres
        (local_kms_has_secrets go config_path fingerprint raw config safe)
