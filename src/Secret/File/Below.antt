-- ===== src/Secret/File/Below.antt =====
-- What the test `within` of internal/platform/secret/secret.go lets through: a relative path that does
-- not lead up is one whose parts start with those of the root.
use text.Mathlib.TextLemmas.{cons-append, nil-append}
use Prim.Native.String
use accountable.Prelude.{
  String, true, false, ◌≡◌, refl, inl, inr, some, List, [], ◌∷◌, ◌++◌, arith, Bool-cases,
}
use accountable.Text.{has_prefix, join}
use accountable.Text.Paths.{is_abs, clean_parts, render}
use accountable.Text.Paths.Rel.{rel, strip_common, from_parts, climb, strip_common_rest}
use accountable.Secret.File.{within, is_below}

-- An absolute path whose parts start with those of the root.
abbrev pub IsBelow : String → String → Type 0
IsBelow root path =
    (is_abs path ≡ true) × ((rest : List String) × (clean_parts path ≡ clean_parts root ++ rest))

starts_with_up : (rest : String) → has_prefix (String.◌++◌ ".." (String.◌∷◌ "/" rest)) "../" ≡ true
unfolding has_prefix
starts_with_up rest =
    let s = String.◌∷◌ "/" rest in
    rw (cons-append "." "." s, cons-append "." "" s, nil-append s) refl

-- A way that leads up first is not below.
up_not_below : (parts : List String) → is_below (some (render false (".." ∷ parts))) ≡ false
unfolding is_below render join
up_not_below [] = refl
up_not_below (part ∷ parts) = ground (arith, starts_with_up (join "/" (part ∷ parts)))

strip_not_below :
    (b : String) (bases targets : List String) → is_below (from_parts (b ∷ bases, targets)) ≡ false
unfolding from_parts climb is_below
strip_not_below b bases targets = ground (arith, up_not_below (climb bases targets))

below_of_parts :
    (parts : List String × List String) → is_below (from_parts parts) ≡ true → parts.0 ≡ []
below_of_parts ([], targets) h = refl
below_of_parts (b ∷ bases, targets) h = cc (strip_not_below b bases targets)

pub within-IsBelow :
    (root path : String) → is_abs root ≡ true → within root path ≡ true → IsBelow root path
unfolding within rel is_below
within-IsBelow root path a h = elim (Bool-cases (is_abs path)) [
  | inr relative ↦ absurd (ground arith)
  | inl rooted ↦ (
    rooted,
    (
      (strip_common (clean_parts root) (clean_parts path)).1,
      strip_common_rest (clean_parts root) (clean_parts path) (
          below_of_parts (strip_common (clean_parts root) (clean_parts path))
            (rw (a, rooted) at h)),
    ),
  )
]
