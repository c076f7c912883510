-- ===== src/Secret/Ref/Laws.antt =====
-- What a parsed reference is made of, and where it leads below a root directory.
use Prim.Native.String
use mathlib.Core.Path.{subst}
use text.Mathlib.TextLemmas.{cons-ne-nil, append_assoc}
use accountable.Prelude.{
  String, ◌≡◌, ◌≢◌, ◌↔◌, refl, true, false, List, [], ◌∷◌, ◌++◌, any, All, ok, ◌==◌, eq_iff, arith,
  Bool-cases, inl, inr,
}
use accountable.Text.{has_prefix, drop_prefix, split}
use accountable.Text.Splitting.{append-drop_prefix, split-append_sep}
use accountable.Text.Paths.{is_abs, clean, clean_parts, render, join_paths}
use accountable.Text.Paths.Clean.{
  IsSegment, clean-IsSegment, clean_of_names, slash-append, join_paths_names,
}
use accountable.Secret.Ref.{secret_ref_pattern, parse_ref}

not-any_dotdot :
    (parts : List String)
    → any (λ segment. segment == "..") parts ≡ false
    → All (λ part. part ≢ "..") parts
not-any_dotdot [] h = tt
not-any_dotdot (part ∷ parts) h =
    (ground (arith, eq_iff part ".."), not-any_dotdot parts (ground arith))

any_dotdot_of_names :
    (parts : List String) → All IsSegment parts → any (λ segment. segment == "..") parts ≡ false
any_dotdot_of_names [] h = refl
any_dotdot_of_names (part ∷ parts) h =
    ground (arith, eq_iff part "..", any_dotdot_of_names parts h.1)

pattern-ne-nil : (value : String) → secret_ref_pattern value ≡ true → value ≢ ""
unfolding secret_ref_pattern
pattern-ne-nil String.[] h = cc
pattern-ne-nil (String.◌∷◌ c s) h = cons-ne-nil c s

-- A path of names is neither "." nor "..", and does not start by leading up.
dot_not_names : ¬ All IsSegment (split "/" ".")
unfolding split
dot_not_names h = h.0.1 refl

dotdot_not_names : ¬ All IsSegment (split "/" "..")
unfolding split
dotdot_not_names h = h.0.2 refl

pub not_dots : (value : String) → All IsSegment (split "/" value) → (value ≢ ".") × (value ≢ "..")
not_dots value h = (
  λ e. dot_not_names (subst (λ v. All IsSegment (split "/" v)) e h),
  λ e. dotdot_not_names (subst (λ v. All IsSegment (split "/" v)) e h),
)

up_not_names : (rest : String) → ¬ All IsSegment (split "/" (String.◌++◌ "../" rest))
unfolding split
up_not_names rest h =
    (rw
        (
          append_assoc ".." "/" rest,
          slash-append rest,
          split-append_sep "/" ".." rest (ground arith, (ground arith, tt)),
        )
        at h).0.2
      refl

pub not-up : (value : String) → All IsSegment (split "/" value) → has_prefix value "../" ≡ false
not-up value h = elim (Bool-cases (has_prefix value "../")) [
  | inl up ↦
      absurd (up_not_names (drop_prefix value "../") (rw (append-drop_prefix value "../" up) h))
  | inr down ↦ down
]

parse_ref_guards :
    (value ref : String)
    → parse_ref value ≡ ok ref
    → (ref ≡ value)
      × (secret_ref_pattern value ≡ true)
      × (is_abs value ≡ false)
      × (value ≢ ".")
      × (any (λ segment. segment == "..") (split "/" value) ≡ false)
      × (clean value ≡ value)
unfolding parse_ref
parse_ref_guards value ref h = ground (arith, eq_iff value ".", eq_iff (clean value) value)

-- An accepted text matches the pattern, and each of its segments between slashes is a name.
pub parse_ref_sound :
    (value ref : String)
    → parse_ref value ≡ ok ref
    → (ref ≡ value) × (secret_ref_pattern value ≡ true) × All IsSegment (split "/" value)
parse_ref_sound value ref h =
    let (same, p, relative, dot, d, c) = parse_ref_guards value ref h in
    (
      same,
      p,
      clean-IsSegment value (pattern-ne-nil value p) dot relative
          (not-any_dotdot (split "/" value) d) c,
    )

-- Every text that matches the pattern and is made of names is accepted as it stands.
pub parse_ref_complete :
    (value : String)
    → secret_ref_pattern value ≡ true
    → All IsSegment (split "/" value)
    → parse_ref value ≡ ok value
unfolding parse_ref
parse_ref_complete value p h =
    let (same, relative) = clean_of_names value h in
    ground (
      arith,
      any_dotdot_of_names (split "/" value) h,
      eq_iff (clean value) value,
      not_dots value h,
      eq_iff value ".",
      eq_iff value "..",
      not-up value h,
    )

-- ParseRef accepts exactly the texts of the pattern whose segments between slashes are all names:
-- none is empty, "." or "..".
pub parse_ref_iff :
    (value : String)
    → (parse_ref value ≡ ok value)
      ↔ ((secret_ref_pattern value ≡ true) × All IsSegment (split "/" value))
parse_ref_iff value = (
  λ h. let (_, p, s) = parse_ref_sound value value h in (p, s),
  λ h. parse_ref_complete value h.0 h.1,
)

-- Below an absolute root, the path of an accepted reference has all the parts of the root, then
-- the segments of the reference: it cannot leave the root.
pub join_paths-parse_ref :
    (root value ref : String)
    → is_abs root ≡ true
    → parse_ref value ≡ ok ref
    → join_paths root ref ≡ render true (clean_parts root ++ split "/" value)
join_paths-parse_ref root value ref a h =
    let (same, p, s) = parse_ref_sound value ref h in rw same (join_paths_names root value a s)
