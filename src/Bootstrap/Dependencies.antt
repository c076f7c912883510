-- ===== src/Bootstrap/Dependencies.antt =====
-- internal/bootstrap/dependencies.go. What the packages of internal/platform and the AWS SDK offer is
-- the record `Platform`; `opened` counts the database pools that are open.
pub mod Safety
pub mod NilInterfaces
use accountable.Prelude.{
  ℕ, suc, ◌-◌, String, Bool, true, false, Option, none, some, List, [], ◌∷◌, Result, ok, err, ◌>>=◌,
  ◌>>◌, ◌==◌, if◌then◌else◌, or_else,
}
use accountable.Go.{Duration}
use accountable.Maps.{Dict, lookup}
use accountable.Text.Paths.{join_paths}
use accountable.Secret.Ref.{SecretConfig, provider_file}
use accountable.Database.Config.{DatabaseConfig}
use accountable.Storage.Config.{StorageConfig, storage_provider_file}
use accountable.Crypto.Config.{CryptoConfig, crypto_provider_local}
use accountable.Bootstrap.Config.{Config, TimeConfig, time_provider_linux}

-- An error, or the panic of a call on a nil interface.
pub data Failed (E : Type 0) : Type 0 where
  foundation_unavailable : Failed E
  crypto_unavailable : Failed E
  refused : E → Failed E
  nil_interface : Failed E

-- The sources of time: clock.SystemHealth, or clock.NewLinuxHealth with its bound.
pub data TimeHealth : Type 0 where
  system_health : TimeHealth
  linux_health : Duration → TimeHealth

pub record FlagEvaluation : Type 0 where
  pub enabled : Bool
  pub defaulted : Bool

-- `start` of check_health is the first of the two checks that Build makes.
pub record Platform (E Resolver Database Store Cryptor Aws : Type 0) : Type 0 where
  pub check_health : Bool → TimeHealth → Result E (Unit {0})
  pub new_source : SecretConfig → Result E Resolver
  pub resolve_batch : Resolver → List String → Result E (Dict String)
  pub open_database : DatabaseConfig → Resolver → Result E Database
  pub load_aws_config : String → Result E Aws
  pub new_file_storage : String → Result E Store
  pub new_s3_storage : StorageConfig → Aws → Store
  pub new_local_crypto : String → String → Result E Cryptor
  pub new_aws_crypto : CryptoConfig → Aws → Result E Cryptor
  pub bootstrap_probe : FlagEvaluation
  pub check_database : Database → Result E (Unit {0})
  pub check_clock : Database → Duration → Result E (Unit {0})
  pub check_storage : Store → Result E (Unit {0})
  pub check_crypto : Cryptor → Result E (Unit {0})
  pub ping_database : Database → Result E (Unit {0})
  pub probe_storage : Store → Result E (Unit {0})
  pub probe_crypto : Cryptor → Result E (Unit {0})

pub record Dependencies (Database Store Cryptor : Type 0) : Type 0 where
  pub database : Option Database
  pub storage : Option Store
  pub crypto : Option Cryptor
  pub bootstrap_flag : FlagEvaluation
  pub time_health : TimeHealth
  pub maximum_db_skew : Duration

-- a method of an interface that may be nil
abbrev pub on {ℓ κ} :
    {E : Type 0} {A : Type ℓ} {B : Type κ}
    → Option A
    → (A → Result (Failed E) B)
    → Result (Failed E) B
on none f = err nil_interface
on (some a) f = f a

abbrev pub call {ℓ} : {E : Type 0} {A : Type ℓ} → Result E A → Result (Failed E) A
call (ok a) = ok a
call (err e) = err (refused e)

-- if field != nil { if err := check(field); err != nil { return err } }
abbrev pub if_present :
    {E A : Type 0} → Option A → (A → Result E (Unit {0})) → Result (Failed E) (Unit {0})
if_present none check = ok tt
if_present (some a) check = call (check a)

-- var x; if enabled { x, err = build() }
abbrev pub if_enabled : {E A : Type 0} → Bool → Result (Failed E) A → Result (Failed E) (Option A)
if_enabled false build = ok none
if_enabled true build = build >>= λ a. ok (some a)

abbrev pub value_of : {E : Type 0} → Option String → Result (Failed E) String
value_of none = err crypto_unavailable
value_of (some key) = ok key

unfoldable pub time_health_of : TimeConfig → TimeHealth
time_health_of time =
    if time.provider == time_provider_linux
    then linux_health time.max_clock_error
    else system_health

module _ {E Resolver Database Store Cryptor Aws : Type 0}
    (p : Platform E Resolver Database Store Cryptor Aws) where
  -- Dependencies.Check
  unfoldable pub check : Dependencies Database Store Cryptor → Result (Failed E) (Unit {0})
  check d = do
    call (p.check_health false d.time_health)
    if_present d.database p.check_database
    if_present d.database (λ db. p.check_clock db d.maximum_db_skew)
    if_present d.storage p.check_storage
    if_present d.crypto p.check_crypto

  -- Dependencies.Ping
  unfoldable pub ping : Dependencies Database Store Cryptor → Result (Failed E) (Unit {0})
  ping d = do
    call (p.check_health false d.time_health)
    if_present d.database p.ping_database
    if_present d.storage p.probe_storage
    if_present d.crypto p.probe_crypto

  unfoldable pub build_storage : Config → Result (Failed E) Store
  build_storage config =
      if config.storage.provider == storage_provider_file
      then call (p.new_file_storage config.storage.root)
      else (call (p.load_aws_config config.storage.region) >>= λ aws.
          ok (p.new_s3_storage config.storage aws))

  -- filepath.FromSlash does nothing where the separator is a slash.
  unfoldable pub key_path : Config → String
  key_path config =
      if config.secrets.provider == provider_file
      then join_paths config.secrets.directory config.crypto.key_ref
      else ""

  abbrev pub local_crypto : Config → Resolver → Result (Failed E) Cryptor
  local_crypto config secrets = do
    values ←
        or_else (call (p.resolve_batch secrets (config.crypto.key_ref ∷ []))) crypto_unavailable
    key ← value_of (lookup config.crypto.key_ref values)
    call (p.new_local_crypto key (key_path config))

  unfoldable pub build_crypto : Config → Option Resolver → Result (Failed E) Cryptor
  build_crypto config secrets =
      if config.crypto.provider == crypto_provider_local
      then on secrets (local_crypto config)
      else (call (p.load_aws_config config.crypto.region) >>= λ aws.
          call (p.new_aws_crypto config.crypto aws))

  -- Build up to the opening of the database.
  unfoldable pub build_base : Config → Result (Failed E) (Option Resolver × Option Database)
  build_base config = do
    call (p.check_health true (time_health_of config.time))
    resolver ←
        if_enabled config.capabilities.secrets
          (or_else (call (p.new_source config.secrets)) foundation_unavailable)
    db ←
        if_enabled config.capabilities.postgres
          (on resolver (λ r. call (p.open_database config.database r)))
    ok (resolver, db)

  abbrev pub assemble :
      Config → Option Database → Option Store → Option Cryptor → Dependencies Database Store Cryptor
  assemble config db store cryptor = record {
    database = db;
    storage = store;
    crypto = cryptor;
    bootstrap_flag = p.bootstrap_probe;
    time_health = time_health_of config.time;
    maximum_db_skew = config.time.max_database_skew;
  }

  -- Build from there on, where an error closes the database.
  unfoldable pub build_rest :
      Config
      → Option Resolver
      → Option Database
      → Result (Failed E) (Dependencies Database Store Cryptor)
  build_rest config resolver db = do
    store ← if_enabled config.capabilities.object_storage (build_storage config)
    cryptor ← if_enabled config.capabilities.kms (build_crypto config resolver)
    let dependencies = assemble config db store cryptor
    check dependencies
    ok dependencies

  abbrev pub opening : Option Database → ℕ → ℕ
  opening none opened = opened
  opening (some db) opened = suc opened

  abbrev pub closing : Option Database → ℕ → ℕ
  closing none opened = opened
  closing (some db) opened = opened - 1

  -- `fail` closes the database; success keeps it open.
  unfoldable pub finish :
      Option Database
      → Result (Failed E) (Dependencies Database Store Cryptor)
      → ℕ
      → ℕ × Result (Failed E) (Dependencies Database Store Cryptor)
  finish db (err e) opened = (closing db opened, err e)
  finish db (ok d) opened = (opened, ok d)

  continue :
      Config
      → Result (Failed E) (Option Resolver × Option Database)
      → ℕ
      → ℕ × Result (Failed E) (Dependencies Database Store Cryptor)
  unfolding finish
  continue config (err e) opened = (opened, err e)
  continue config (ok (resolver, db)) opened =
      finish db (build_rest config resolver db) (opening db opened)

  unfoldable pub build : Config → ℕ → ℕ × Result (Failed E) (Dependencies Database Store Cryptor)
  unfolding continue
  build config opened = continue config (build_base config) opened

  -- Dependencies.Close
  unfoldable pub close : Dependencies Database Store Cryptor → ℕ → ℕ
  close d opened = closing d.database opened

  report :
      ℕ × Result (Failed E) (Dependencies Database Store Cryptor)
      → ℕ × Result (Failed E) FlagEvaluation
  unfolding close
  report (opened, err e) = (opened, err e)
  report (opened, ok d) = (close d opened, ok d.bootstrap_flag)

  unfoldable pub preflight : Config → ℕ → ℕ × Result (Failed E) FlagEvaluation
  unfolding report
  preflight config opened = report (build config opened)
