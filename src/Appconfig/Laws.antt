-- ===== src/Appconfig/Laws.antt =====
-- What a configuration that the loaders of internal/appconfig/api.go accept is known to be.
use mathlib.Core.Path.{subst}
use text.Mathlib.TextLemmas.{cons-ne-nil}
use accountable.Prelude.{
  String, Bool, true, false, ◌&&◌, ◌≡◌, ◌⊎◌, inl, inr, sym, ap, ◌∙◌, some, List, ok, ◌==◌, is_some,
  arith, eq_iff, Option-cases, >>=-eq-ok,
}
use accountable.Bootstrap.Config.{Config, runtime_role_api, runtime_role_migrate}
use accountable.Bootstrap.Config.Parse.{parse}
use accountable.Bootstrap.Config.Safe.{IsSafe}
use accountable.Bootstrap.Config.Safety.{parse-IsSafe}
use accountable.Appconfig.{ServerFile, ApiFile, Api, Libraries}
use accountable.Appconfig.Servable.{Servable, parse_server-Servable}
use accountable.Appconfig.Load.{
  absolute_path, parse_api, decode_with_fingerprint, check_role, load_runtime, load_api,
  load_foundation, answer,
}

module _ {Network : Type 0} (lib : Libraries Network) where
  -- A runtime that the loaders accept: its file was read and parsed, and its role fits.
  pub record Loaded (args : List String) (expected_role : String) (raw : ApiFile) (config : Config)
      : Type 0 where
    pub path : String
    pub fingerprint : String
    pub absolute : absolute_path args ≡ ok path
    pub decoded : decode_with_fingerprint lib path ≡ ok (raw, fingerprint)
    pub safe : IsSafe lib.go path fingerprint raw.file_config config
    pub role : (expected_role ≡ "") ⊎ (config.runtime_role ≡ expected_role)
    pub migrate :
        config.runtime_role ≡ runtime_role_migrate
        → (config.capabilities.secrets ≡ true) × (config.capabilities.postgres ≡ true)
    pub server : is_some raw.server ≡ true → config.runtime_role ≡ runtime_role_api

  check_role-Fits :
      (raw : ApiFile) (config : Config) (expected_role : String)
      → check_role lib raw config expected_role ≡ ok tt
      → ((expected_role ≡ "") ⊎ (config.runtime_role ≡ expected_role))
        × (config.runtime_role ≡ runtime_role_migrate
            → (config.capabilities.secrets ≡ true) × (config.capabilities.postgres ≡ true))
        × (is_some raw.server ≡ true → config.runtime_role ≡ runtime_role_api)
  unfolding check_role
  check_role-Fits raw config expected_role h = (
    ground (arith, eq_iff expected_role "", eq_iff config.runtime_role expected_role),
    λ e. ground (arith, eq_iff config.runtime_role runtime_role_migrate),
    λ e. ground (arith, eq_iff config.runtime_role runtime_role_api),
  )

  load_runtime_sound :
      (args : List String) (expected_role : String) (raw : ApiFile) (config : Config)
      → load_runtime lib args expected_role ≡ ok (raw, config)
      → Loaded args expected_role raw config
  unfolding load_runtime
  load_runtime_sound args expected_role raw config h =
      let (path, absolute, h) = >>=-eq-ok (absolute_path args) _ h in
      let (decoded, contents, h) = >>=-eq-ok (decode_with_fingerprint lib path) _ h in
      let (c, parsed, h) = >>=-eq-ok (parse lib.go path decoded.1 decoded.0.file_config) _ h in
      let (_, checked, h) = >>=-eq-ok (check_role lib decoded.0 c expected_role) _ h in
      let r : decoded.0 ≡ raw = ground arith in
      let e : c ≡ config = ground arith in
      subst (λ x. Loaded args expected_role x config) r
        (subst (λ x. Loaded args expected_role decoded.0 x) e
          (record {
            path = path;
            fingerprint = decoded.1;
            absolute = absolute;
            decoded = contents;
            safe = parse-IsSafe lib.go path decoded.1 decoded.0.file_config c parsed;
            role = (check_role-Fits decoded.0 c expected_role checked).0;
            migrate = (check_role-Fits decoded.0 c expected_role checked).1;
            server = (check_role-Fits decoded.0 c expected_role checked).2;
          }))

  exact_role :
      (config : Config)
      → (runtime_role_api ≡ "") ⊎ (config.runtime_role ≡ runtime_role_api)
      → config.runtime_role ≡ runtime_role_api
  exact_role config (inl e) = absurd (cons-ne-nil _ _ e)
  exact_role config (inr e) = e

  -- When LoadAPI accepts a command line, the file it names was read, decoded and parsed into a safe
  -- foundation configuration of the role `api`, and the server section into a servable one: an
  -- address that splits into host and port, origins without credentials or paths (HTTPS ones in
  -- production), no TLS file or an absolute pair that loads, RPC deadlines that are positive and
  -- shorter than the HTTP write timeout, and the parsed proxy networks in their order.
  pub load_api_sound :
      (args : List String) (c : Api Network)
      → load_api lib args ≡ ok c
      → (raw : ApiFile) × (server : ServerFile) × Loaded args runtime_role_api raw c.foundation
        × (c.foundation.runtime_role ≡ runtime_role_api)
        × (raw.server ≡ some server)
        × Servable lib server c.foundation c
  unfolding load_api parse_api
  load_api_sound args c h =
      let ((raw, config), loaded, h) = >>=-eq-ok (load_runtime lib args runtime_role_api) _ h in
      elim (Option-cases raw.server) [
        | inl missing ↦ absurd (ground arith)
        | inr (server, given) ↦
            let servable = parse_server-Servable lib server config c (ground arith) in
            let e = servable.same in
            let runtime = load_runtime_sound args runtime_role_api raw config loaded in
            (
              raw,
              server,
              subst (Loaded args runtime_role_api raw) (sym e) runtime,
              ap (λ x. x.runtime_role) e ∙ exact_role config runtime.role,
              given,
              subst (λ x. Servable lib server x c) (sym e) servable,
            )
      ]

  answer_sound :
      (checked : Bool) (raw : ApiFile) (found config : Config)
      → answer lib checked (raw, found) ≡ ok config
      → (found ≡ config)
        × (checked ≡ true
            → (server : ServerFile) × (c : Api Network) × (raw.server ≡ some server)
              × Servable lib server config c)
  unfolding parse_api
  answer_sound false raw found config h = (ground arith, λ e. cc)
  answer_sound true raw found config h =
      let (c, parsed, h) = >>=-eq-ok (parse_api lib raw found) (λ api. ok api.foundation) h in
      elim (Option-cases raw.server) [
        | inl missing ↦ absurd (ground arith)
        | inr (server, given) ↦
            let servable = parse_server-Servable lib server found c (ground arith) in
            let same : found ≡ config = sym servable.same ∙ ground arith in
            (same, λ e. (server, c, given, subst (λ x. Servable lib server x c) same servable))
      ]

  -- When LoadFoundation accepts a command line, the file it names was read, decoded and parsed into
  -- a safe foundation configuration; its role is the expected one unless none was expected; a
  -- `migrate` configuration has secrets and a database; a server section is there only for the role
  -- `api`; and if no role was expected and the role is `api`, the section is servable.
  pub load_foundation_sound :
      (args : List String) (expected_role : String) (config : Config)
      → load_foundation lib args expected_role ≡ ok config
      → (raw : ApiFile) × Loaded args expected_role raw config
        × (expected_role ≡ ""
            → config.runtime_role ≡ runtime_role_api
            → (server : ServerFile) × (c : Api Network) × (raw.server ≡ some server)
              × Servable lib server config c)
  unfolding load_foundation
  load_foundation_sound args expected_role config h =
      let ((raw, found), loaded, h) = >>=-eq-ok (load_runtime lib args expected_role) _ h in
      let runtime = load_runtime_sound args expected_role raw found loaded in
      let (same, served) =
        answer_sound (expected_role == "" && found.runtime_role == runtime_role_api) raw found
          config h in
      (
        raw,
        subst (Loaded args expected_role raw) same runtime,
        λ e r. served (
            ground (
              arith,
              eq_iff expected_role "",
              eq_iff found.runtime_role runtime_role_api,
              ap (λ x. x.runtime_role) same,
            )),
      )
