-- ===== src/Bootstrap/Dependencies/Safety.antt =====
-- What Build of internal/bootstrap/dependencies.go promises: it leaks no database pool, returns what
-- the configuration enables, checked, and calls no nil interface on a parsed configuration.
use mathlib.Core.Path.{subst}
use accountable.Prelude.{
  ℕ, Bool, true, false, ◌≡◌, refl, sym, ap, ◌∙◌, Option, none, some, Result, ok, err, is_some,
  arith, >>=-eq-ok, ok-inj, Result-cases, inl, inr,
}
use accountable.Bootstrap.Config.{Config}
use accountable.Bootstrap.Dependencies.{
  Failed, Platform, Dependencies, call, if_enabled, check, build_storage, build_crypto, build_base,
  build_rest, finish, continue, build, close, report, preflight, opening,
}

pub if_enabled-is_some :
    {E A : Type 0} (enabled : Bool) (m : Result (Failed E) A) {a : Option A}
    → if_enabled enabled m ≡ ok a
    → is_some a ≡ enabled
if_enabled-is_some false m h = ground arith
if_enabled-is_some true (ok x) h = ground arith
if_enabled-is_some true (err e) h = cc

module _ {E Resolver Database Store Cryptor Aws : Type 0}
    (p : Platform E Resolver Database Store Cryptor Aws) where
  -- What a successful build_rest returns.
  build_rest-eq-ok :
      (config : Config) (resolver : Option Resolver) (db : Option Database)
      (d : Dependencies Database Store Cryptor)
      → build_rest p config resolver db ≡ ok d
      → (d.database ≡ db)
        × (is_some d.storage ≡ config.capabilities.object_storage)
        × (is_some d.crypto ≡ config.capabilities.kms)
        × (check p d ≡ ok tt)
  unfolding build_rest
  build_rest-eq-ok config resolver db d h =
      let (store, stored, h) = >>=-eq-ok (if_enabled _ (build_storage p config)) _ h in
      let (cryptor, made, h) = >>=-eq-ok (if_enabled _ (build_crypto p config resolver)) _ h in
      let (_, checked, h) = >>=-eq-ok (check p _) _ h in
      let s = if_enabled-is_some config.capabilities.object_storage _ stored in
      let c = if_enabled-is_some config.capabilities.kms _ made in
      let e = ok-inj (ok _) refl h in
      (
        sym (ap (λ x. x.database) e),
        sym (ap (λ x. is_some x.storage) e) ∙ s,
        sym (ap (λ x. is_some x.crypto) e) ∙ c,
        subst (λ x. check p x ≡ ok tt) e checked,
      )

  pub build_base-eq-ok :
      (config : Config) (resolver : Option Resolver) (db : Option Database)
      → build_base p config ≡ ok (resolver, db)
      → (is_some resolver ≡ config.capabilities.secrets)
        × (is_some db ≡ config.capabilities.postgres)
  unfolding build_base
  build_base-eq-ok config resolver db h =
      let (_, healthy, h) = >>=-eq-ok (call (p.check_health true _)) _ h in
      let (r, resolved, h) = >>=-eq-ok (if_enabled config.capabilities.secrets _) _ h in
      let (o, opened, h) = >>=-eq-ok (if_enabled config.capabilities.postgres _) _ h in
      let e = ok-inj (ok _) refl h in
      let s = if_enabled-is_some config.capabilities.secrets _ resolved in
      let d = if_enabled-is_some config.capabilities.postgres _ opened in
      (sym (ap (λ x. is_some x.0) e) ∙ s, sym (ap (λ x. is_some x.1) e) ∙ d)

  -- Dependencies that match the capabilities of the configuration and pass the checks.
  pub record Complete (config : Config) (d : Dependencies Database Store Cryptor) : Type 0 where
    pub database : is_some d.database ≡ config.capabilities.postgres
    pub storage : is_some d.storage ≡ config.capabilities.object_storage
    pub crypto : is_some d.crypto ≡ config.capabilities.kms
    pub checked : check p d ≡ ok tt

  -- A successful Build returns a database, a storage and a cryptor exactly where the configuration
  -- enables them, and the dependencies have passed every check.
  pub build-Complete :
      (config : Config) (opened after : ℕ) (d : Dependencies Database Store Cryptor)
      → build p config opened ≡ (after, ok d)
      → Complete config d
  unfolding build continue finish
  build-Complete config opened after d h = elim (Result-cases (build_base p config)) [
    | inr (e, failed) ↦ absurd (ground arith)
    | inl ((resolver, db), based) ↦ elim (Result-cases (build_rest p config resolver db)) [
      | inr (e, failed) ↦ absurd (ground arith)
      | inl (found, built) ↦
          let same : found ≡ d = ground arith in
          let (_, has_db) = build_base-eq-ok config resolver db based in
          let (database, storage, crypto, checked) =
            build_rest-eq-ok config resolver db found built in
          subst (Complete config) same (record {
            database = ap is_some database ∙ has_db;
            storage = storage;
            crypto = crypto;
            checked = checked;
          })
    ]
  ]

  finish-balanced :
      (db : Option Database) (m : Result (Failed E) (Dependencies Database Store Cryptor))
      (opened : ℕ)
      → ((d : Dependencies Database Store Cryptor) → m ≡ ok d → d.database ≡ db)
      → (report p (finish p db m (opening p db opened))).0 ≡ opened
  unfolding finish report close
  finish-balanced none (err e) opened same = refl
  finish-balanced (some db) (err e) opened same = omega arith
  finish-balanced none (ok d) opened same = rw (same d refl) refl
  finish-balanced (some db) (ok d) opened same = rw (same d refl) (omega arith)

  continue-balanced :
      (config : Config) (m : Result (Failed E) (Option Resolver × Option Database)) (opened : ℕ)
      → (report p (continue p config m opened)).0 ≡ opened
  unfolding continue report
  continue-balanced config (err e) opened = refl
  continue-balanced config (ok (resolver, db)) opened =
      finish-balanced db (build_rest p config resolver db) opened
        (λ d h. (build_rest-eq-ok config resolver db d h).0)

  -- A build that fails leaves as many database pools open as there were, and so does a preflight,
  -- whatever its result: what Build opened, its error path or Close has closed.
  pub build-balanced :
      (config : Config) (opened : ℕ)
      → ((preflight p config opened).0 ≡ opened)
        × ((after : ℕ) (e : Failed E) → build p config opened ≡ (after, err e) → after ≡ opened)
  unfolding build preflight
  build-balanced config opened =
      let balanced = continue-balanced config (build_base p config) opened in
      (balanced, λ after e h. ap (λ x. (report p x).0) (sym h) ∙ balanced)
