-- ===== src/Migration/Runner/Laws.antt =====
-- The table of the schema's state after a run of the migrations, and whether a binary accepts it.
use mathlib.Core.Path.{subst}
use accountable.Prelude.{
  ℕ, zero, suc, String, Bool, true, false, ◌&&◌, ◌≡◌, ◌≢◌, ◌⊎◌, inl, inr, refl, sym, Option, none,
  some, ok, err, is_ok, arith, Bool-cases, Result-cases,
}
use accountable.Go.{ℤ, pos}
use accountable.Database.Schema.{validate_schema_state, validate_schema_state_iff}
use accountable.Database.Check.{SchemaRow, no_rows, check_schema}
use accountable.Migration.Runner.{
  SchemaTable, missing, empty, row, MigrationState, Calls, Outcome, with_locked, then_do, exists,
  mark_state_dirty_if_present, state_matches, validate_current_state, up_migrations, finalize_state,
  apply_pending, run_locked, unlocked, run_fs,
}

-- The state that a binary serves with: a clean row of the version that it was compiled for.
abbrev pub supported : SchemaTable
supported = row (pos 20260801000000) false

-- What the query of Database.Check answers for a table.
abbrev pub schema_row : SchemaTable → SchemaRow
schema_row missing = no_rows
schema_row empty = no_rows
schema_row (row version dirty) = SchemaRow.row version dirty

-- The schema part of Database.Check fails on the table.
abbrev pub Refused : SchemaTable → Type 0
Refused table = check_schema (some (exists table)) (schema_row table) ≢ ok tt

abbrev pub is_dirty : SchemaTable → Bool
is_dirty missing = false
is_dirty empty = false
is_dirty (row version dirty) = dirty

-- What goose's Up may do to the state's table: a dirty row stays dirty, and a missing table
-- stays missing or is created as the first migration creates it, with version 0.
pub record GooseUp (up : MigrationState → Bool × MigrationState) : Type 0 where
  pub stays_dirty : (s : MigrationState) → is_dirty s.table ≡ true → is_dirty (up s).1.table ≡ true
  pub creates :
      (s : MigrationState)
      → s.table ≡ missing
      → ((up s).1.table ≡ missing) ⊎ ((up s).1.table ≡ row (pos 0) false)

module _ (calls : Calls) where
  finalize_state_lem :
      (s : MigrationState)
      → (is_ok (finalize_state calls s).0 ≡ true → (finalize_state calls s).1.table ≡ supported)
        × (is_ok (finalize_state calls s).0 ≡ false
            → ((finalize_state calls s).1.table ≡ s.table)
              ⊎ ((calls.finalize_rows ≡ false) × ((finalize_state calls s).1.table ≡ supported)))
  unfolding finalize_state
  finalize_state_lem s = ground (arith, validate_schema_state_iff s.goose_version false)

  mark_state_lem :
      (s : MigrationState)
      → (is_ok (mark_state_dirty_if_present calls s).0 ≡ true
          → ((mark_state_dirty_if_present calls s).1.table ≡ missing)
            ⊎ (is_dirty (mark_state_dirty_if_present calls s).1.table ≡ true))
        × (is_ok (mark_state_dirty_if_present calls s).0 ≡ false
            → ((mark_state_dirty_if_present calls s).1.table ≡ s.table)
              ⊎ (is_dirty (mark_state_dirty_if_present calls s).1.table ≡ true))
  unfolding mark_state_dirty_if_present
  mark_state_lem s = ground arith

  supported_of_matches :
      (table : SchemaTable) (current : ℤ)
      → state_matches calls table current ≡ ok tt
      → table ≡ supported
  supported_of_matches missing current h = cc
  supported_of_matches empty current h = cc
  supported_of_matches (row version dirty) current h =
      ground (arith, validate_schema_state_iff version dirty)

  validate_current_state_lem :
      (current : ℤ) (s : MigrationState)
      → ((validate_current_state calls current s).1 ≡ s)
        × (is_ok (validate_current_state calls current s).0 ≡ true → s.table ≡ supported)
  unfolding validate_current_state
  validate_current_state_lem current s =
      (ground arith, λ h. supported_of_matches s.table current (ground arith))

  -- What a run that fails leaves: the table as it was, one that a binary refuses, or the supported
  -- one, written before RowsAffected failed.
  abbrev Left : SchemaTable → SchemaTable → Type 0
  Left before table =
      (table ≡ before) ⊎ Refused table ⊎ ((calls.finalize_rows ≡ false) × (table ≡ supported))

  -- A run that took the lock: it succeeds with the supported state, or fails and leaves a table of
  -- these.
  abbrev Settled : SchemaTable → Outcome → Type 0
  Settled before outcome =
      (is_ok outcome.0 ≡ true → outcome.1.table ≡ supported)
      × (is_ok outcome.0 ≡ false → Left before outcome.1.table)

  dirty-Refused : (table : SchemaTable) → is_dirty table ≡ true → Refused table
  unfolding check_schema
  dirty-Refused missing h e = cc
  dirty-Refused empty h e = cc
  dirty-Refused (row version dirty) h e = ground (arith, validate_schema_state_iff version dirty)

  missing-Refused : (table : SchemaTable) → table ≡ missing → Refused table
  unfolding check_schema
  missing-Refused table h e = ground arith

  created-Refused : (table : SchemaTable) → table ≡ row (pos 0) false → Refused table
  unfolding check_schema
  created-Refused table h e = ground (arith, validate_schema_state_iff (pos 0) false)

  up-Refused :
      GooseUp calls.up
      → (s : MigrationState) → (s.table ≡ missing) ⊎ (is_dirty s.table ≡ true)
      → Refused (calls.up s).1.table
  up-Refused goose s (inl absent) = elim (goose.creates s absent) [
    | inl still ↦ missing-Refused _ still
    | inr created ↦ created-Refused _ created
  ]
  up-Refused goose s (inr dirty) = dirty-Refused _ (goose.stays_dirty s dirty)

  then_do-Settled :
      (before : SchemaTable) (outcome : Outcome) (next : MigrationState → Outcome)
      → (is_ok outcome.0 ≡ false → Left before outcome.1.table)
      → (is_ok outcome.0 ≡ true → Settled before (next outcome.1))
      → Settled before (then_do outcome next)
  then_do-Settled before (ok _, s) next failed passed = passed refl
  then_do-Settled before (err e, s) next failed passed = (λ h. cc, failed)

  migrated-Settled :
      GooseUp calls.up
      → (before : SchemaTable) (s : MigrationState)
      → (s.table ≡ missing) ⊎ (is_dirty s.table ≡ true)
      → Settled before (then_do (up_migrations calls s) (finalize_state calls))
  migrated-Settled goose before s start =
      let refused = up-Refused goose s start in
      let (final, kept) = finalize_state_lem (calls.up s).1 in
      then_do-Settled before (up_migrations calls s) (finalize_state calls) (λ h. inr (inl refused))
        (λ h. (
          final,
          λ h. elim (kept h) [
            | inl same ↦ inr (inl (subst Refused (sym same) refused))
            | inr written ↦ inr (inr written)
          ],
        ))

  apply_pending-Settled :
      GooseUp calls.up
      → (pending : Option ℕ) (s : MigrationState) → Settled s.table (apply_pending calls pending s)
  unfolding apply_pending
  apply_pending-Settled goose none s = (λ h. cc, λ h. inl refl)
  apply_pending-Settled goose (some zero) s =
      let (same, valid) = validate_current_state_lem s.goose_version s in
      (λ h. rw same (valid h), λ h. inl (rw same refl))
  apply_pending-Settled goose (some (suc pending)) s =
      let (ready, kept) = mark_state_lem s in
      then_do-Settled s.table (mark_state_dirty_if_present calls s) _
        (λ h. elim (kept h) [ inl same ↦ inl same | inr dirty ↦ inr (inl (dirty-Refused _ dirty)) ])
        (λ h. migrated-Settled goose s.table (mark_state_dirty_if_present calls s).1 (ready h))

  run_locked-Settled :
      GooseUp calls.up → (s : MigrationState) → Settled s.table (run_locked calls s)
  unfolding run_locked
  run_locked-Settled goose s =
      ground (arith, apply_pending-Settled goose (calls.collect s.goose_version) s)

  unlocked_table : (outcome : Outcome) → (unlocked calls outcome).1.table ≡ outcome.1.table
  unlocked_table outcome = ground arith

  supported_passes : check_schema (some (exists supported)) (schema_row supported) ≡ ok tt
  unfolding check_schema validate_schema_state
  supported_passes = refl

  -- A run of the migrations either succeeds and leaves the table of the schema's state as the schema
  -- part of Database.Check accepts it, or it fails, at whichever of its calls, and the table is as
  -- before, or the schema part of Database.Check refuses it, or RowsAffected has failed after the
  -- finalizing UPDATE and the table is the supported one; for migrations that keep a dirty row dirty
  -- and create a missing table as the first migration does.
  pub run_fs_sound :
      GooseUp calls.up
      → (s : MigrationState)
      → let (outcome, after) = run_fs calls s in
        ((outcome ≡ ok tt)
          × (check_schema (some (exists after.table)) (schema_row after.table) ≡ ok tt))
        ⊎ ((e : String) × (outcome ≡ err e)
            × ((after.table ≡ s.table)
                ⊎ Refused after.table
                ⊎ ((calls.finalize_rows ≡ false) × (after.table ≡ supported))))
  unfolding run_fs
  run_fs_sound goose s = elim (Bool-cases (calls.try_lock && s.lock_free)) [
    | inr busy ↦ rw busy (inr (_, refl, inl refl))
    | inl taken ↦
        let run = run_locked calls (with_locked true s) in
        let (good, bad) = run_locked-Settled goose (with_locked true s) in
        elim (Result-cases run.0) [
          | inl (_, passed) ↦
              rw (taken, unlocked_table run)
                (inl (passed, rw (good (ground arith)) supported_passes))
          | inr (e, failed) ↦ rw (taken, unlocked_table run) (inr (e, failed, bad (ground arith)))
        ]
  ]

  -- A run that cannot take the lock changes nothing. One that has taken it gives it back, whatever
  -- it returns, where the unlocking succeeds.
  pub run_fs_lock :
      (s : MigrationState)
      → calls.unlock ≡ true
      → s.locked ≡ false
      → (s.lock_free ≡ false → run_fs calls s ≡ (err "migration lock is unavailable", s))
        × ((run_fs calls s).1.locked ≡ false)
  unfolding run_fs
  run_fs_lock s u l = elim (Bool-cases (calls.try_lock && s.lock_free)) [
    | inr busy ↦ rw busy (λ h. refl, l)
    | inl taken ↦ rw (taken, u) (λ h. absurd (ground arith), refl)
  ]
