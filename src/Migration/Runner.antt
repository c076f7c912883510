-- ===== src/Migration/Runner.antt =====
-- runFS, markStateDirtyIfPresent and validateCurrentState of internal/migration/migration.go. Which
-- statements fail and what goose does are parameters.
pub mod Laws
use accountable.Prelude.{
  ℕ, zero, suc, ◌+◌, String, Bool, true, false, not, ◌&&◌, ◌||◌, Option, none, some, List, [], ◌∷◌,
  Result, ok, err, ◌>>=◌, ◌>>◌, reject, or_else, is_ok, if◌then◌else◌, ◌==◌,
}
use accountable.Go.{ℤ, pos, negsuc, int_eqb}
use accountable.Database.Schema.{validate_schema_state}

-- public.accountable_schema_state: no such table, a table without its row, or its row.
pub data SchemaTable : Type 0 where
  missing : SchemaTable
  empty : SchemaTable
  row : ℤ → Bool → SchemaTable

-- `lock_free` says that no other session holds the advisory lock, `locked` that this one does.
pub record MigrationState : Type 0 where
  pub table : SchemaTable
  pub goose_version : ℤ
  pub lock_free : Bool
  pub locked : Bool

abbrev pub with_table : SchemaTable → MigrationState → MigrationState
with_table table s = record {
  table = table;
  goose_version = s.goose_version;
  lock_free = s.lock_free;
  locked = s.locked;
}

abbrev pub with_locked : Bool → MigrationState → MigrationState
with_locked locked s = record {
  table = s.table;
  goose_version = s.goose_version;
  lock_free = s.lock_free;
  locked = locked;
}

-- Which calls return without an error, in the order of the source (`mark_dirty` and `finalize` are
-- the Exec of an UPDATE, `mark_dirty_rows` and `finalize_rows` RowsAffected after it), the number of pending migrations
-- for a version (`none` is an error other than ErrNoMigrationFiles), and goose.UpContext: whether
-- it returned without an error, and the state that it left.
pub record Calls : Type 0 where
  pub try_lock : Bool
  pub unlock : Bool
  pub set_time_zone : Bool
  pub read_time_zone : Option String
  pub set_search_path : Bool
  pub set_dialect : Bool
  pub read_version : Bool
  pub collect : ℤ → Option ℕ
  pub read_exists : Bool
  pub mark_dirty : Bool
  pub mark_dirty_rows : Bool
  pub up : MigrationState → Bool × MigrationState
  pub read_migrated_version : Bool
  pub finalize : Bool
  pub finalize_rows : Bool
  pub read_state : Bool

-- A statement's outcome and the state after it.
abbrev pub Outcome : Type 0
Outcome = Result String (Unit {0}) × MigrationState

abbrev pub then_do : Outcome → (MigrationState → Outcome) → Outcome
then_do (err e, s) next = (err e, s)
then_do (ok _, s) next = next s

-- if condition { return errors.New(...) }
abbrev pub fail_if : Bool → String → MigrationState → Outcome
fail_if condition e s = (reject condition e, s)

abbrev pub exists : SchemaTable → Bool
exists missing = false
exists empty = true
exists (row version dirty) = true

-- An UPDATE whose Exec fails changes nothing; one that affects no row returns the error. Otherwise
-- the row is written, and the error is returned where RowsAffected then fails.
abbrev pub updated :
    Bool → (ℤ → Bool → SchemaTable) → String → SchemaTable → MigrationState → Outcome
updated counts f e missing s = (err e, s)
updated counts f e empty s = (err e, s)
updated counts f e (row version dirty) s = (reject (not counts) e, with_table (f version dirty) s)

abbrev pub update : Bool → Bool → (ℤ → Bool → SchemaTable) → String → MigrationState → Outcome
update executes counts f e s = if executes then updated counts f e s.table s else (err e, s)

module _ (calls : Calls) where
  unfoldable pub mark_state_dirty_if_present : MigrationState → Outcome
  mark_state_dirty_if_present s =
      if not calls.read_exists
      then (err "schema state cannot be read", s)
      else if not (exists s.table)
      then (ok tt, s)
      else update calls.mark_dirty calls.mark_dirty_rows (λ version _. row version true)
          "schema state cannot be marked dirty" s

  abbrev pub state_matches : SchemaTable → ℤ → Result String (Unit {0})
  state_matches missing current = err "schema state does not match the migration catalogue"
  state_matches empty current = err "schema state does not match the migration catalogue"
  state_matches (row version dirty) current = do
    reject (not (int_eqb version current)) "schema state does not match the migration catalogue"
    reject (not (is_ok (validate_schema_state version dirty)))
        "schema state is not supported by this binary"

  unfoldable pub validate_current_state : ℤ → MigrationState → Outcome
  validate_current_state current s =
      if not calls.read_state
      then (err "schema state does not match the migration catalogue", s)
      else (state_matches s.table current, s)

  abbrev pub up_migrations : MigrationState → Outcome
  up_migrations s = finished (calls.up s)
    where
      finished : Bool × MigrationState → Outcome
      finished (succeeded, after) =
          (reject (not succeeded) "migration failed; schema remains dirty", after)

  unfoldable pub finalize_state : MigrationState → Outcome
  finalize_state s =
      then_do (fail_if (not calls.read_migrated_version) "migrated schema version cannot be read" s)
        (λ s.
          then_do
            (
              reject (not (is_ok (validate_schema_state s.goose_version false)))
                  "migrations do not produce a binary-supported schema version",
              s,
            )
            (λ s.
              update calls.finalize calls.finalize_rows (λ _ _. row s.goose_version false)
                "schema state cannot be finalized" s))

  unfoldable pub apply_pending : Option ℕ → MigrationState → Outcome
  unfolding mark_state_dirty_if_present validate_current_state finalize_state
  apply_pending none s = (err "migration catalogue cannot be read", s)
  apply_pending (some zero) s = validate_current_state s.goose_version s
  apply_pending (some (suc pending)) s =
      then_do (mark_state_dirty_if_present s) (λ s. then_do (up_migrations s) finalize_state)

  -- err != nil || timezone != "UTC"
  abbrev pub not_utc : Option String → Bool
  not_utc none = true
  not_utc (some timezone) = not (timezone == "UTC")

  unfoldable pub run_locked : MigrationState → Outcome
  unfolding apply_pending
  run_locked s =
      then_do
        (
          reject (not calls.set_time_zone) "migration database session cannot set UTC"
              >> reject (not_utc calls.read_time_zone) "migration database session is not UTC"
              >> reject (not calls.set_search_path) "migration database session cannot be secured"
              >> reject (not calls.set_dialect) "migration dialect cannot be configured"
              >> reject (not calls.read_version) "schema migration version cannot be read",
          s,
        )
        (λ s. apply_pending (calls.collect s.goose_version) s)

  -- The deferred unlock, whose error is dropped.
  abbrev pub unlocked : Outcome → Outcome
  unlocked (outcome, s) = (outcome, if calls.unlock then with_locked false s else s)

  unfoldable pub run_fs : MigrationState → Outcome
  unfolding run_locked
  run_fs s =
      if calls.try_lock && s.lock_free
      then unlocked (run_locked (with_locked true s))
      else (err "migration lock is unavailable", s)
