-- ===== src/Text/Paths/Rel.antt =====
-- filepath.Rel on a Unix system, on two absolute or two relative paths, and the parts of a rendered
-- path.
use accountable.Prelude.{
  String, Bool, true, false, not, ◌≡◌, refl, ap, Option, none, some, List, [], ◌∷◌, ◌++◌, All, ◌==◌,
  if◌then◌else◌, arith, eq_iff, eq_refl, All-append, ◌&&◌, ◌||◌,
}
use accountable.Text.{split, join}
use accountable.Text.Splitting.{LacksChar, split-LacksChar, split-join}
use accountable.Text.Paths.{is_abs, render, clean_parts, pop, resolve, resolve_all, join_paths}
use accountable.Text.Paths.Clean.{
  IsSegment, resolve_all-append, slash-append, join_paths_names, All-reverse_aux, render_of_split,
}

-- What is left of two lists of parts after the parts that they share at the front.
unfoldable pub strip_common : List String → List String → List String × List String
strip_common [] targets = ([], targets)
strip_common (b ∷ bases) [] = (b ∷ bases, [])
strip_common (b ∷ bases) (t ∷ targets) =
    let rest = strip_common bases targets in if b == t then rest else (b ∷ bases, t ∷ targets)

unfoldable pub climb : List String → List String → List String
climb [] targets = targets
climb (b ∷ bases) targets = ".." ∷ climb bases targets

unfoldable pub starts_up : List String → Bool
starts_up [] = false
starts_up (b ∷ bases) = b == ".."

unfoldable pub from_parts : List String × List String → Option String
unfolding climb starts_up
from_parts (bases, targets) =
    if starts_up bases then none else some (render false (climb bases targets))

-- `none` is an error: one path is absolute and the other is not, or the way up is not known.
unfoldable pub rel : String → String → Option String
unfolding from_parts strip_common
rel base target =
    if (is_abs base && is_abs target) || (not (is_abs base) && not (is_abs target))
    then from_parts (strip_common (clean_parts base) (clean_parts target))
    else none

strip_common-append : (bases rest : List String) → strip_common bases (bases ++ rest) ≡ ([], rest)
unfolding strip_common
strip_common-append [] rest = refl
strip_common-append (b ∷ bases) rest = rw (eq_refl b) (strip_common-append bases rest)

-- Where nothing is left of the first list, the second one starts with it.
pub strip_common_rest :
    (bases targets : List String)
    → (strip_common bases targets).0 ≡ []
    → targets ≡ bases ++ (strip_common bases targets).1
unfolding strip_common
strip_common_rest [] targets h = refl
strip_common_rest (b ∷ bases) [] h = cc
strip_common_rest (b ∷ bases) (t ∷ targets) h =
    ground (arith, eq_iff b t, strip_common_rest bases targets)

rooted-IsSegment :
    (kept : List String) (part : String)
    → LacksChar "/" part
    → All IsSegment kept
    → All IsSegment (resolve true kept part)
unfolding resolve pop
rooted-IsSegment [] part l h = ground (arith, eq_iff part "", eq_iff part ".", eq_iff part "..")
rooted-IsSegment (last ∷ kept) part l h =
    ground (arith, eq_iff part "", eq_iff part ".", eq_iff part "..", eq_iff last "..")

rooted_all-IsSegment :
    (kept parts : List String)
    → All (LacksChar "/") parts
    → All IsSegment kept
    → All IsSegment (resolve_all true kept parts)
unfolding resolve_all
rooted_all-IsSegment kept [] l h = All-reverse_aux kept [] h tt
rooted_all-IsSegment kept (part ∷ parts) l h =
    rooted_all-IsSegment (resolve true kept part) parts l.1 (rooted-IsSegment kept part l.0 h)

-- The parts of an absolute path are names.
pub clean_parts-IsSegment : (path : String) → is_abs path ≡ true → All IsSegment (clean_parts path)
unfolding clean_parts
clean_parts-IsSegment path a =
    rw a (rooted_all-IsSegment [] (split "/" path) (split-LacksChar "/" path) tt)

lacks_slash : (names : List String) → All IsSegment names → All (LacksChar "/") names
lacks_slash [] k = tt
lacks_slash (name ∷ names) k = (k.0.3, lacks_slash names k.1)

clean_parts_root : (clean_parts "/" ≡ []) × (is_abs "/" ≡ true)
unfolding clean_parts is_abs split resolve_all resolve
clean_parts_root = (refl, refl)

clean_parts-slash :
    (s : String)
    → (clean_parts (String.◌∷◌ "/" s) ≡ resolve_all true [] (split "/" s))
      × (is_abs (String.◌∷◌ "/" s) ≡ true)
unfolding clean_parts is_abs split resolve_all resolve
clean_parts-slash s = (refl, refl)

-- Names that are rendered below the root are the parts of the path.
pub clean_parts-render :
    (names : List String)
    → All IsSegment names
    → (clean_parts (render true names) ≡ names) × (is_abs (render true names) ≡ true)
unfolding render resolve_all
clean_parts-render [] h = clean_parts_root
clean_parts-render (name ∷ names) h =
    let s = join "/" (name ∷ names) in
    let (parts, rooted) = clean_parts-slash s in
    rw (slash-append s, parts, split-join "/" name names (lacks_slash (name ∷ names) h))
      (resolve_all-append true [] [] (name ∷ names) h, rooted)

-- A path joined to an absolute one of which every part is a name is below it by that path.
pub rel-join_paths :
    (base path : String)
    → is_abs base ≡ true
    → All IsSegment (split "/" path)
    → rel base (join_paths base path) ≡ some path
unfolding rel
rel-join_paths base path a h =
    let parts = clean_parts base ++ split "/" path in
    let (same, rooted) =
      clean_parts-render parts (
        All-append IsSegment (clean_parts base) (split "/" path) (clean_parts-IsSegment base a)
          h) in
    rw
      (
        join_paths_names base path a h,
        a,
        rooted,
        same,
        strip_common-append (clean_parts base) (split "/" path),
      )
      (ap some (render_of_split path h))
