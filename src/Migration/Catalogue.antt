-- ===== src/Migration/Catalogue.antt =====
-- mergeSources of internal/migration/catalogue.go. A file tree answers with its entries and files.
pub mod Laws
use Prim.Native.String.{◌++◌ as concat}
use accountable.Prelude.{
  ℕ, String, Bool, true, false, not, ◌&&◌, ◌||◌, Option, none, some, List, [], ◌∷◌, Result, ok, err,
  ◌>>=◌, ◌>>◌, reject, eqb, leb, ◌==◌, if◌then◌else◌,
}
use accountable.Bytes.{Bytes}
use accountable.Maps.{Dict, lookup, insert}
use accountable.Text.{split, join, all_chars, rune_count}

pub record Entry : Type 0 where
  pub name : String
  pub is_dir : Bool

-- fs.ReadDir of the root, and fs.ReadFile; `none` is an error.
pub record Tree : Type 0 where
  pub read_dir : Option (List Entry)
  pub read_file : String → Option Bytes

pub record Source : Type 0 where
  pub owner : String
  pub tree : Tree

pub data MergeError : Type 0 where
  directory_unreadable : String → MergeError
  name_mismatch : String → String → MergeError
  version_used_twice : String → String → String → MergeError
  name_used_twice : String → String → String → MergeError
  file_unreadable : String → String → MergeError

abbrev pub is_digit : ℕ → Bool
is_digit c = leb b'0' c && leb c b'9'

-- [a-z0-9]
abbrev pub is_lower_alnum : ℕ → Bool
is_lower_alnum c = is_digit c || leb b'a' c && leb c b'z'

abbrev pub has_sql_suffix : List String → Bool
has_sql_suffix [] = false
has_sql_suffix (body ∷ []) = false
has_sql_suffix (body ∷ suffix ∷ []) =
    not (body == "") && all_chars (λ c. is_lower_alnum c || eqb c b'_') body && suffix == "sql"
has_sql_suffix (body ∷ suffix ∷ other ∷ more) = false

abbrev pub version_of_parts : List String → Option String
version_of_parts [] = none
version_of_parts (version ∷ []) = none
version_of_parts (version ∷ owner ∷ []) = none
version_of_parts (version ∷ owner ∷ next ∷ parts) =
    if eqb (rune_count version) 14
      && all_chars is_digit version
      && not (owner == "")
      && all_chars is_lower_alnum owner
      && has_sql_suffix (split "." (join "_" (next ∷ parts)))
    then some version
    else none

-- The version of a name that matches ^(\d{14})_[a-z0-9]+_[a-z0-9_]+\.sql$: its parts between
-- underscores are the version, the owner's word, and the rest.
unfoldable pub filename_version : String → Option String
unfolding split join all_chars rune_count
filename_version name = version_of_parts (split "_" name)

-- The maps `files`, `owners` and `versions`.
pub record Merged : Type 0 where
  pub files : Dict Bytes
  pub owners : Dict String
  pub versions : Dict String

abbrev pub absent : Option String → (String → MergeError) → Result MergeError (Unit {0})
absent none e = ok tt
absent (some other) e = err (e other)

abbrev pub or_error : {A : Type 0} → Option A → MergeError → Result MergeError A
or_error none e = err e
or_error (some a) e = ok a

unfoldable pub merge_file : String → Tree → String → Merged → Result MergeError Merged
unfolding lookup insert
merge_file owner tree name merged = do
  version ← or_error (filename_version name) (name_mismatch owner name)
  absent (lookup version merged.versions)
      (λ other. version_used_twice version other (concat owner (concat "/" name)))
  absent (lookup name merged.owners) (λ other. name_used_twice name other owner)
  payload ← or_error (tree.read_file name) (file_unreadable owner name)
  ok (record {
    files = insert name payload merged.files;
    owners = insert name owner merged.owners;
    versions = insert version (concat owner (concat "/" name)) merged.versions;
  })

unfoldable pub merge_entries : String → Tree → List Entry → Merged → Result MergeError Merged
merge_entries owner tree [] merged = ok merged
merge_entries owner tree (entry ∷ entries) merged = do
  merged ← if entry.is_dir then ok merged else merge_file owner tree entry.name merged
  merge_entries owner tree entries merged

unfoldable pub merge_all : List Source → Merged → Result MergeError Merged
merge_all [] merged = ok merged
merge_all (source ∷ sources) merged = do
  entries ← or_error source.tree.read_dir (directory_unreadable source.owner)
  merged ← merge_entries source.owner source.tree entries merged
  merge_all sources merged

unfoldable pub merge_sources : List Source → Result MergeError (Dict Bytes)
merge_sources sources = do
  merged ← merge_all sources (record { files = []; owners = []; versions = [] })
  ok merged.files
