-- ===== src/Migration/Catalogue/Laws.antt =====
-- The files that mergeSources puts together.
use Prim.Native.String.{◌++◌ as concat}
use mathlib.Core.Path.{subst}
use accountable.Prelude.{
  String, true, ◌≡◌, ◌≢◌, refl, none, some, List, [], ◌∷◌, ok, is_some, ◌==◌, if◌then◌else◌, arith,
  eq_iff, eq_refl, Bool-cases, inl, inr, is_some-some, >>=-eq-ok, ok-inj,
}
use accountable.Bytes.{Bytes}
use accountable.Maps.{Dict, lookup, insert, lookup-insert}
use accountable.Migration.Catalogue.{
  Entry, Tree, Source, Merged, filename_version, or_error, merge_file, merge_entries, merge_all,
  merge_sources,
}

-- Every file has a version, which is among the versions seen, and no two files have the same.
pub record Numbered (merged : Merged) : Type 0 where
  pub versioned :
      (name : String)
      → is_some (lookup name merged.files) ≡ true
      → (version : String) × (filename_version name ≡ some version)
        × (is_some (lookup version merged.versions) ≡ true)
  pub distinct :
      (a b version : String)
      → is_some (lookup a merged.files) ≡ true
      → is_some (lookup b merged.files) ≡ true
      → filename_version a ≡ some version
      → filename_version b ≡ some version
      → a ≡ b

merge_file_adds :
    (owner : String) (tree : Tree) (name : String) (merged after : Merged)
    → merge_file owner tree name merged ≡ ok after
    → (version : String) × (payload : Bytes) × (by : String) × (filename_version name
        ≡ some version)
      × (lookup version merged.versions ≡ none)
      × (tree.read_file name ≡ some payload)
      × (after.files ≡ insert name payload merged.files)
      × (after.versions ≡ insert version by merged.versions)
unfolding merge_file
merge_file_adds owner tree name merged after h =
    let (version, v) = is_some-some (filename_version name) (λ e. ground arith) in
    let (payload, r) = is_some-some (tree.read_file name) (λ e. ground arith) in
    (
      version,
      payload,
      concat owner (concat "/" name),
      v,
      ground arith,
      r,
      ground arith,
      ground arith,
    )

-- A file that is there does not have a version that is not yet among those seen.
fresh_version :
    (merged : Merged)
    → Numbered merged
    → (name version : String) → is_some (lookup name merged.files) ≡ true
    → lookup version merged.versions ≡ none
    → filename_version name ≢ some version
fresh_version merged n name version present fresh e =
    let (own, v, seen) = n.versioned name present in ground (arith, eq_iff own version)

merge_file-Numbered :
    (owner : String) (tree : Tree) (name : String) (merged after : Merged)
    → merge_file owner tree name merged ≡ ok after
    → Numbered merged
    → Numbered after
merge_file-Numbered owner tree name merged after h n =
    let (version, payload, by, v, fresh, r, f, s) =
      merge_file_adds owner tree name merged after h in
    let there : (a : String)
        → lookup a after.files ≡ (if name == a then some payload else lookup a merged.files) =
      λ a. rw f (lookup-insert name a payload merged.files) in
    let seen : (w : String)
        → lookup w after.versions ≡ (if version == w then some by else lookup w merged.versions) =
      λ w. rw s (lookup-insert version w by merged.versions) in
    record {
      versioned = λ a p. elim (Bool-cases (name == a)) [
        | inl same ↦
            (version, ground (arith, eq_iff name a), ground (arith, seen version, eq_refl version))
        | inr other ↦
            let (w, e, found) = n.versioned a (ground (arith, there a)) in
            (w, e, ground (arith, seen w))
      ];
      distinct = λ a b w p q e d. elim (Bool-cases (name == a)) [
        | inl same ↦ elim (Bool-cases (name == b)) [
          | inl too ↦ ground (arith, eq_iff name a, eq_iff name b)
          | inr other ↦ absurd (
              fresh_version merged n b version (ground (arith, there b)) fresh
                (ground (arith, eq_iff name a)))
        ]
        | inr other ↦ elim (Bool-cases (name == b)) [
          | inl same ↦ absurd (
              fresh_version merged n a version (ground (arith, there a)) fresh
                (ground (arith, eq_iff name b)))
          | inr too ↦ n.distinct a b w (ground (arith, there a)) (ground (arith, there b)) e d
        ]
      ];
    }

merge_entries-Numbered :
    (owner : String) (tree : Tree) (entries : List Entry) (merged after : Merged)
    → merge_entries owner tree entries merged ≡ ok after
    → Numbered merged
    → Numbered after
unfolding merge_entries
merge_entries-Numbered owner tree [] merged after h n = subst Numbered (ok-inj (ok _) refl h) n
merge_entries-Numbered owner tree (entry ∷ entries) merged after h n =
    let (next, e, h) =
      >>=-eq-ok (if entry.is_dir then ok merged else merge_file owner tree entry.name merged) _ h in
    merge_entries-Numbered owner tree entries next after h (elim (Bool-cases entry.is_dir) [
      | inl dir ↦ subst Numbered (ok-inj (ok _) refl (rw dir at e)) n
      | inr file ↦ merge_file-Numbered owner tree entry.name merged next (rw file at e) n
    ])

merge_all-Numbered :
    (sources : List Source) (merged after : Merged)
    → merge_all sources merged ≡ ok after
    → Numbered merged
    → Numbered after
unfolding merge_all
merge_all-Numbered [] merged after h n = subst Numbered (ok-inj (ok _) refl h) n
merge_all-Numbered (source ∷ sources) merged after h n =
    let (entries, _, h) = >>=-eq-ok (or_error source.tree.read_dir _) _ h in
    let (next, e, h) = >>=-eq-ok (merge_entries source.owner source.tree entries merged) _ h in
    merge_all-Numbered sources next after h
      (merge_entries-Numbered source.owner source.tree entries merged next e n)

nothing-Numbered : Numbered (record { files = []; owners = []; versions = [] })
unfolding lookup
nothing-Numbered = record { versioned = λ name p. cc; distinct = λ a b w p q e d. cc }

-- Of the files that mergeSources puts together, no two have names with the same version.
pub merge_sources_sound :
    (sources : List Source) (files : Dict Bytes)
    → merge_sources sources ≡ ok files
    → (a b version : String) → is_some (lookup a files) ≡ true
    → is_some (lookup b files) ≡ true
    → filename_version a ≡ some version
    → filename_version b ≡ some version
    → a ≡ b
unfolding merge_sources
merge_sources_sound sources files h a b version =
    let (merged, e, h) = >>=-eq-ok (merge_all sources _) _ h in
    let n = merge_all-Numbered sources _ merged e nothing-Numbered in
    let same : merged.files ≡ files = ok-inj (ok _) refl h in rw⁻¹ same (n.distinct a b version)

-- Each of them has a name with a version.
pub merge_sources-versioned :
    (sources : List Source) (files : Dict Bytes)
    → merge_sources sources ≡ ok files
    → (name : String) → is_some (lookup name files) ≡ true
    → (version : String) × (filename_version name ≡ some version)
unfolding merge_sources
merge_sources-versioned sources files h name p =
    let (merged, e, h) = >>=-eq-ok (merge_all sources _) _ h in
    let n = merge_all-Numbered sources _ merged e nothing-Numbered in
    let same : merged.files ≡ files = ok-inj (ok _) refl h in
    let (version, v, _) = n.versioned name (rw same p) in (version, v)
