-- ===== src/Migration/Sources.antt =====
-- Run of internal/migration/migration.go: the files of the owners, applied to the database.
use accountable.Prelude.{
  String, ◌≡◌, ◌⊎◌, inl, inr, refl, some, List, [], ◌∷◌, Result, ok, err, Result-cases,
}
use accountable.Bytes.{Bytes}
use accountable.Maps.{Dict}
use accountable.Database.Check.{check_schema}
use accountable.Migration.Catalogue.{Source, MergeError, merge_sources}
use accountable.Migration.Runner.{MigrationState, Calls, exists, run_fs}
use accountable.Migration.Runner.Laws.{GooseUp, Refused, schema_row, supported, run_fs_sound}

pub data RunError : Type 0 where
  merging : MergeError → RunError
  applying : String → RunError

abbrev pub applied :
    Result String (Unit {0}) × MigrationState → Result RunError (Unit {0}) × MigrationState
applied (ok done, s) = (ok done, s)
applied (err e, s) = (err (applying e), s)

-- The sources of Catalogue where none are given.
abbrev pub or_catalogue : List Source → List Source → List Source
or_catalogue catalogue [] = catalogue
or_catalogue catalogue (source ∷ sources) = source ∷ sources

-- `calls` are the answers of the database and of goose for the merged files.
module _ (catalogue : List Source) (calls : Dict Bytes → Calls) where
  abbrev pub run_merged :
      Result MergeError (Dict Bytes) → MigrationState → Result RunError (Unit {0}) × MigrationState
  run_merged (err e) s = (err (merging e), s)
  run_merged (ok files) s = applied (run_fs (calls files) s)

  unfoldable pub run_sources :
      List Source → MigrationState → Result RunError (Unit {0}) × MigrationState
  run_sources sources s = run_merged (merge_sources (or_catalogue catalogue sources)) s

  -- Run either succeeds with a table that the schema part of Database.Check accepts, or it fails and
  -- leaves the table as before, one that the schema part of Database.Check refuses, or the supported
  -- one, where RowsAffected has failed after the finalizing UPDATE.
  pub run_sources_sound :
      ((files : Dict Bytes) → GooseUp (calls files).up)
      → (sources : List Source) (s : MigrationState)
      → let (outcome, after) = run_sources sources s in
        ((outcome ≡ ok tt)
          × (check_schema (some (exists after.table)) (schema_row after.table) ≡ ok tt))
        ⊎ ((e : RunError) × (outcome ≡ err e)
            × ((after.table ≡ s.table) ⊎ Refused after.table ⊎ (after.table ≡ supported)))
  unfolding run_sources
  run_sources_sound goose sources s =
      elim (Result-cases (merge_sources (or_catalogue catalogue sources))) [
        | inr (e, m) ↦ rw m (inr (merging e, refl, inl refl))
        | inl (files, m) ↦ elim (run_fs_sound (calls files) (goose files) s) [
          | inl (passed, accepted) ↦ rw (m, passed) (inl (refl, accepted))
          | inr (e, failed, table) ↦
              rw (m, failed)
                (inr (
                  applying e,
                  refl,
                  elim table [
                    | inl same ↦ inl same
                    | inr (inl refused) ↦ inr (inl refused)
                    | inr (inr (rows, written)) ↦ inr (inr written)
                  ],
                ))
        ]
      ]
