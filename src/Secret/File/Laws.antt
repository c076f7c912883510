-- ===== src/Secret/File/Laws.antt =====
-- What the file source of secrets hands out. Its root is absolute: the constructor refuses another
-- and filepath.EvalSymlinks gives an absolute path for an absolute one.
use Prim.Native.Nat.{bit_and}
use accountable.Prelude.{
  is_some-some, is_ok-ok, ℕ, suc, ◌≤◌, ◌<◌, String, true, false, ◌≡◌, refl, ap, ◌∙◌, ◌⊎◌, inl, inr,
  Bool-cases, eqb, some, List, [], ◌∷◌, ◌++◌, length, All-append, All, ok, arith, eq_iff,
}
use accountable.Bytes.{Bytes, take, take_of_short, trim_byte, length-trim_byte}
use accountable.Maps.{Dict, lookup}
use mathlib.Core.List.{append_assoc}
use accountable.Text.{split}
use accountable.Text.Paths.{is_abs, clean_parts, join_paths, dir}
use accountable.Text.Paths.Rel.{rel-join_paths, clean_parts-IsSegment, clean_parts-render}
use accountable.Secret.File.Below.{IsBelow, within-IsBelow}
use accountable.Secret.Ref.{parse_ref}
use accountable.Secret.Ref.Laws.{parse_ref_sound, not_dots, not-up}
use accountable.Text.Paths.Clean.{IsSegment, join_paths_names, clean_of_names}
use accountable.Secret.Batch.{Distinct, resolve_each_sound}
use accountable.Secret.File.{
  Disk, FileInfo, FileSecretSource, maximum_secret_bytes, within, is_below, checked_content,
  check_path, resolve, resolve_batch, trim_line_end,
}

-- A line's end of a text: nothing, "\n", "\r" or "\r\n".
abbrev pub IsLineEnd : Bytes → Type 0
IsLineEnd ending =
    (ending ≡ []) ⊎ (ending ≡ 0x0a ∷ []) ⊎ (ending ≡ 0x0d ∷ []) ⊎ (ending ≡ 0x0d ∷ 0x0a ∷ [])

trim_byte_lem :
    (last : ℕ) (bs : Bytes)
    → (ending : Bytes) × (bs ≡ trim_byte last bs ++ ending) × ((ending ≡ []) ⊎ (ending ≡ last ∷ []))
unfolding trim_byte
trim_byte_lem last [] = ([], refl, inl refl)
trim_byte_lem last (b ∷ []) = elim (Bool-cases (eqb b last)) [
  | inl hit ↦ (last ∷ [], ground arith, inr refl)
  | inr miss ↦ ([], rw miss refl, inl refl)
]
trim_byte_lem last (b ∷ c ∷ bs) =
    let (ending, e, k) = trim_byte_lem last (c ∷ bs) in (ending, ap (◌∷◌ b) e, k)

trim_line_end_lem :
    (bs : Bytes) → (ending : Bytes) × (bs ≡ trim_line_end bs ++ ending) × IsLineEnd ending
trim_line_end_lem bs =
    let (feed, e, f) = trim_byte_lem 0x0a bs in
    let (carriage, d, c) = trim_byte_lem 0x0d (trim_byte 0x0a bs) in
    (
      carriage ++ feed,
      e ∙ ap (λ x. x ++ feed) d ∙ append_assoc (trim_line_end bs) carriage feed,
      ends carriage feed c f,
    )
  where
    ends :
        (carriage feed : Bytes)
        → (carriage ≡ []) ⊎ (carriage ≡ 0x0d ∷ [])
        → (feed ≡ []) ⊎ (feed ≡ 0x0a ∷ [])
        → IsLineEnd (carriage ++ feed)
    ends carriage feed (inl c) (inl f) = inl (rw (c, f) refl)
    ends carriage feed (inl c) (inr f) = inr (inl (rw (c, f) refl))
    ends carriage feed (inr c) (inl f) = inr (inr (inl (rw (c, f) refl)))
    ends carriage feed (inr c) (inr f) = inr (inr (inr (rw (c, f) refl)))

-- A value of a secret: between one byte and the maximum.
abbrev pub IsSecret : Bytes → Type 0
IsSecret value = (0 < length value) × (length value ≤ maximum_secret_bytes)

checked_content_sound :
    (limited value : Bytes)
    → checked_content limited ≡ ok value
    → IsSecret value × (length limited ≤ maximum_secret_bytes) × (value ≡ trim_line_end limited)
unfolding checked_content
checked_content_sound limited value h = (
  ground (arith, length-trim_byte 0x0a limited, length-trim_byte 0x0d (trim_byte 0x0a limited)),
  ground arith,
  ground arith,
)

-- A value is the whole of a content of at most the maximum without the end of its last line.
abbrev pub IsContent : Bytes → Bytes → Type 0
IsContent bytes value =
    (length bytes ≤ maximum_secret_bytes)
    × (value ≡ trim_line_end bytes)
    × ((ending : Bytes) × (bytes ≡ value ++ ending) × IsLineEnd ending)

checked_content-IsContent :
    (bytes value : Bytes)
    → checked_content (take (suc maximum_secret_bytes) bytes) ≡ ok value
    → IsSecret value × IsContent bytes value
checked_content-IsContent bytes value h =
    let (secret, short, trimmed) =
      checked_content_sound (take (suc maximum_secret_bytes) bytes) value h in
    let whole : take (suc maximum_secret_bytes) bytes ≡ bytes =
      take_of_short maximum_secret_bytes bytes short in
    let same : value ≡ trim_line_end bytes = trimmed ∙ ap trim_line_end whole in
    let (ending, e, k) = trim_line_end_lem bytes in
    (secret, (rw whole at short, same, (ending, rw same e, k)))

module _ (disk : Disk) (source : FileSecretSource) where
  -- A secret read from a regular file below the root, no part of which leaves it by a link, that only
  -- its owner may access.
  pub record ReadSafely (ref : String) (value : Bytes) : Type 0 where
    pub accepted : parse_ref ref ≡ ok ref
    pub names : All IsSegment (split "/" ref)
    pub path : clean_parts (join_paths source.root ref) ≡ clean_parts source.root ++ split "/" ref
    pub parent :
        (real : String) × (disk.eval_symlinks (dir (join_paths source.root ref)) ≡ some real)
        × IsBelow source.root real
    pub info :
        (info : FileInfo) × (disk.lstat (join_paths source.root ref) ≡ some info)
        × (info.is_regular ≡ true)
        × (info.is_symlink ≡ false)
        × (bit_and info.perm 0o077 ≡ 0)
    pub content :
        (bytes : Bytes) × (disk.read (join_paths source.root ref) ≡ some bytes)
        × IsContent bytes value
    pub sized : IsSecret value

  check_path_sound :
      (path : String)
      → is_abs source.root ≡ true
      → check_path disk source path ≡ ok tt
      → ((real : String) × (disk.eval_symlinks (dir path) ≡ some real) × IsBelow source.root real)
        × ((info : FileInfo) × (disk.lstat path ≡ some info)
            × (info.is_regular ≡ true)
            × (info.is_symlink ≡ false)
            × (bit_and info.perm 0o077 ≡ 0))
  unfolding check_path
  check_path_sound path a h =
      let (real, e) = is_some-some (disk.eval_symlinks (dir path)) (λ e. ground arith) in
      let (info, l) = is_some-some (disk.lstat path) (λ e. ground arith) in
      (
        (real, e, within-IsBelow source.root real a (ground arith)),
        (info, l, ground arith, ground arith, ground arith),
      )

  resolve_sound :
      (ref : String) (value : Bytes)
      → is_abs source.root ≡ true
      → resolve disk source ref ≡ ok value
      → ReadSafely ref value
  unfolding resolve
  resolve_sound ref value a h =
      let (parsed, p) = is_ok-ok (parse_ref ref) (λ e f. ground arith) in
      let (same, _, names) = parse_ref_sound ref parsed p in
      let checked : check_path disk source (join_paths source.root ref) ≡ ok tt = ground arith in
      let (content, r) =
        is_some-some (disk.read (join_paths source.root ref)) (λ e. ground arith) in
      let (parent, info) = check_path_sound (join_paths source.root ref) a checked in
      let (sized, whole) = checked_content-IsContent content value (ground arith) in
      record {
        accepted = rw same at p;
        names = names;
        path =
            rw (join_paths_names source.root ref a names)
              (clean_parts-render _ (
                All-append IsSegment (clean_parts source.root) (split "/" ref)
                  (clean_parts-IsSegment source.root a) names)).0;
        parent = parent;
        info = info;
        content = (content, r, whole);
        sized = sized;
      }

  all_ReadSafely :
      (refs : List String) (out : Dict Bytes)
      → is_abs source.root ≡ true
      → All
          (λ ref.
            (value : Bytes) × (resolve disk source ref ≡ ok value) × (lookup ref out ≡ some value))
          refs
      → All (λ ref. (value : Bytes) × ReadSafely ref value × (lookup ref out ≡ some value)) refs
  all_ReadSafely [] out a h = tt
  all_ReadSafely (ref ∷ refs) out a h =
      let (value, r, l) = h.0 in
      ((value, resolve_sound ref value a r, l), all_ReadSafely refs out a h.1)

  -- For an absolute root, a batch that ResolveBatch returns is of distinct references, each of which
  -- ParseRef accepts. The parts of its path are those of the root and then its own segments, which
  -- are names; the real path of the file's directory starts with the parts of the root; at the path
  -- there is a regular file, no symbolic link, with no permission for the group or others. The
  -- reference maps to what is read of that file, at most 65536 bytes, without one "\n" and then one
  -- "\r" at its end, and that is of 1 to 65536 bytes.
  pub resolve_batch_sound :
      (refs : List String) (out : Dict Bytes)
      → is_abs source.root ≡ true
      → resolve_batch disk source refs ≡ ok out
      → Distinct refs
        × All (λ ref. (value : Bytes) × ReadSafely ref value × (lookup ref out ≡ some value)) refs
  unfolding resolve_batch
  resolve_batch_sound refs out a h =
      let (distinct, read) =
        resolve_each_sound "secret references must be unique" (resolve disk source) refs [] out h in
      (distinct, all_ReadSafely refs out a read)

-- Below an absolute root the path of every reference that ParseRef accepts passes the test that it
-- does not leave the root.
pub within-parse_ref :
    (root value ref : String)
    → is_abs root ≡ true
    → parse_ref value ≡ ok ref
    → within root (join_paths root ref) ≡ true
unfolding within is_below
within-parse_ref root value ref a h =
    let (same, p, s) = parse_ref_sound value ref h in
    let found = rel-join_paths root value a s in
    ground (
      arith,
      not_dots value s,
      not-up value s,
      same,
      found,
      eq_iff value "..",
      clean_of_names value s,
    )
