-- ===== src/Text/Paths/Clean.antt =====
-- What `clean` and `join_paths` do to the parts of a path.
use Prim.Native.Char.{Char}
use Prim.Native.String
use mathlib.Core.List.{reverse_aux, reverse-cons, append_assoc, append-nil}
use text.Mathlib.TextLemmas.{nil-append, cons-append, cons-ne-nil}
use accountable.Prelude.{
  String, ◌≡◌, ◌≢◌, refl, sym, ap, ◌∙◌, Bool, true, false, List, [], ◌∷◌, ◌++◌, All, arith, eq_iff,
  ◌==◌, Bool-cases, inl, inr,
}
use accountable.Text.{split}
use accountable.Text.Splitting.{
  LacksChar, split-LacksChar, split-join, split-append, split-ne-nil, join-split,
}
use accountable.Text.Paths.{
  is_abs, resolve, resolve_all, render, clean_parts, clean, join_paths, dir,
}

-- A name in a directory: it is not empty, not ".", not "..", and holds no slash.
abbrev pub IsSegment : String → Type 0
IsSegment part = (part ≢ "") × (part ≢ ".") × (part ≢ "..") × LacksChar "/" part

-- A part that does not lead up.
abbrev IsDown : String → Type 0
IsDown part = (part ≢ "..") × LacksChar "/" part

pub All-reverse_aux :
    (xs ys : List String) → All IsSegment xs → All IsSegment ys → All IsSegment (reverse_aux xs ys)
All-reverse_aux [] ys h k = k
All-reverse_aux (x ∷ xs) ys h k = All-reverse_aux xs (x ∷ ys) h.1 (h.0, k)

resolve-IsSegment :
    (rooted : Bool) (kept : List String) (part : String)
    → IsDown part
    → All IsSegment kept
    → All IsSegment (resolve rooted kept part)
unfolding resolve
resolve-IsSegment rooted kept part d h =
    ground (arith, eq_iff part "", eq_iff part ".", eq_iff part "..")

resolve_all-IsSegment :
    (rooted : Bool) (kept parts : List String)
    → All IsDown parts
    → All IsSegment kept
    → All IsSegment (resolve_all rooted kept parts)
unfolding resolve_all
resolve_all-IsSegment rooted kept [] d h = All-reverse_aux kept [] h tt
resolve_all-IsSegment rooted kept (part ∷ parts) d h =
    resolve_all-IsSegment rooted (resolve rooted kept part) parts d.1
      (resolve-IsSegment rooted kept part d.0 h)

-- A part that is a name is pushed.
resolve_of_IsSegment :
    (rooted : Bool) (kept : List String) (part : String)
    → IsSegment part
    → resolve rooted kept part ≡ part ∷ kept
unfolding resolve
resolve_of_IsSegment rooted kept part h =
    ground (arith, eq_iff part "", eq_iff part ".", eq_iff part "..")

-- Names after any parts are kept as they stand.
pub resolve_all-append :
    (rooted : Bool) (kept parts names : List String)
    → All IsSegment names
    → resolve_all rooted kept (parts ++ names) ≡ resolve_all rooted kept parts ++ names
unfolding resolve_all
resolve_all-append rooted kept [] [] h = sym (append-nil _)
resolve_all-append rooted kept [] (name ∷ names) h =
    ap (λ k. resolve_all rooted k names) (resolve_of_IsSegment rooted kept name h.0)
    ∙ resolve_all-append rooted (name ∷ kept) [] names h.1
    ∙ simp (reverse-cons, append_assoc)
resolve_all-append rooted kept (part ∷ parts) names h =
    resolve_all-append rooted (resolve rooted kept part) parts names h

-- What a clean relative path without ".." is made of.
render-IsSegment :
    (path : String) (parts : List String)
    → path ≢ "."
    → All IsSegment parts
    → render false parts ≡ path
    → All IsSegment (split "/" path)
unfolding render
render-IsSegment path [] n h e = absurd (n (sym e))
render-IsSegment path (part ∷ parts) n h e =
    rw (← e, split-join "/" part parts (lacks (part ∷ parts) h)) h
  where
    lacks : (names : List String) → All IsSegment names → All (LacksChar "/") names
    lacks [] k = tt
    lacks (name ∷ names) k = (k.0.3, lacks names k.1)

pub clean-IsSegment :
    (path : String)
    → path ≢ ""
    → path ≢ "."
    → is_abs path ≡ false
    → All (λ part. part ≢ "..") (split "/" path)
    → clean path ≡ path
    → All IsSegment (split "/" path)
unfolding clean clean_parts
clean-IsSegment path e n a d c =
    render-IsSegment path (resolve_all false [] (split "/" path)) n
      (resolve_all-IsSegment false [] (split "/" path) (both _ d (split-LacksChar "/" path)) tt)
      (ground (arith, eq_iff path ""))
  where
    both :
        (parts : List String)
        → All (λ part. part ≢ "..") parts
        → All (LacksChar "/") parts
        → All IsDown parts
    both [] h k = tt
    both (part ∷ parts) h k = ((h.0, k.0), both parts h.1 k.1)

beq-nil_of_cons : (c : Char) (s : String) → (String.◌∷◌ c s == "") ≡ false
beq-nil_of_cons c s = elim (Bool-cases (String.◌∷◌ c s == "")) [
  | inl e ↦ absurd (cons-ne-nil c s ((eq_iff (String.◌∷◌ c s) "").0 e))
  | inr e ↦ e
]

is_abs_of_split :
    (path : String) (part : String) (parts : List String)
    → split "/" path ≡ part ∷ parts
    → part ≢ ""
    → is_abs path ≡ false
unfolding is_abs split
is_abs_of_split String.[] part parts e n = refl
is_abs_of_split (String.◌∷◌ c path) part parts e n = ground arith

split_head :
    (path : String)
    → All IsSegment (split "/" path)
    → (part : String) × (parts : List String) × (split "/" path ≡ part ∷ parts) × (part ≢ "")
split_head path h = go (split "/" path) refl h
  where
    go :
        (found : List String)
        → split "/" path ≡ found
        → All IsSegment found
        → (part : String) × (parts : List String) × (split "/" path ≡ part ∷ parts) × (part ≢ "")
    go [] e k = absurd (split-ne-nil "/" path e)
    go (part ∷ parts) e k = (part, parts, e, k.0.0)

pub render_of_split :
    (path : String) → All IsSegment (split "/" path) → render false (split "/" path) ≡ path
unfolding render
render_of_split path h =
    let (part, parts, e, n) = split_head path h in rw e (rw (← e) (join-split "/" path))

empty_not_names : ¬ All IsSegment (split "/" "")
unfolding split
empty_not_names h = h.0.0 refl

-- A path of names is clean and relative.
pub clean_of_names :
    (path : String) → All IsSegment (split "/" path) → (clean path ≡ path) × (is_abs path ≡ false)
unfolding clean clean_parts
clean_of_names String.[] h = absurd (empty_not_names h)
clean_of_names (String.◌∷◌ c s) h =
    let path = String.◌∷◌ c s in
    let (part, parts, e, n) = split_head path h in
    let relative = is_abs_of_split path part parts e n in
    (
      rw (beq-nil_of_cons c s, relative, resolve_all-append false [] [] (split "/" path) h)
          (render_of_split path h),
      relative,
    )

pub slash-append : (s : String) → String.◌++◌ "/" s ≡ String.◌∷◌ "/" s
slash-append s = cons-append "/" "" s ∙ ap (String.◌∷◌ "/") (nil-append s)

is_abs-append : (base s : String) → is_abs base ≡ true → is_abs (String.◌++◌ base s) ≡ true
unfolding is_abs
is_abs-append String.[] s h = cc
is_abs-append (String.◌∷◌ c base) s h = rw (cons-append c base s) (ground arith)

beq-nil_of_is_abs : (path : String) → is_abs path ≡ true → (path == "") ≡ false
unfolding is_abs
beq-nil_of_is_abs String.[] a = cc
beq-nil_of_is_abs (String.◌∷◌ c s) a = beq-nil_of_cons c s

clean_of_is_abs : (path : String) → is_abs path ≡ true → clean path ≡ render true (clean_parts path)
unfolding clean
clean_of_is_abs path a = rw (beq-nil_of_is_abs path a, a)

clean_parts-append :
    (base path : String)
    → is_abs base ≡ true
    → All IsSegment (split "/" path)
    → clean_parts (String.◌++◌ base (String.◌∷◌ "/" path)) ≡ clean_parts base ++ split "/" path
unfolding clean_parts
clean_parts-append base path a h =
    rw (is_abs-append base (String.◌∷◌ "/" path) a, a, split-append "/" base path)
      (resolve_all-append true [] (split "/" base) (split "/" path) h)

-- Joining names to an absolute path adds them to its parts, and removes none.
pub join_paths_names :
    (base path : String)
    → is_abs base ≡ true
    → All IsSegment (split "/" path)
    → join_paths base path ≡ render true (clean_parts base ++ split "/" path)
unfolding join_paths
join_paths_names base path a h =
    let full = String.◌++◌ base (String.◌∷◌ "/" path) in
    rw (slash-append path, beq-nil_of_is_abs base a)
      (clean_of_is_abs full (is_abs-append base (String.◌∷◌ "/" path) a)
        ∙ ap (render true) (clean_parts-append base path a h))

clean_tests :
    (clean "/a/./b//../c/" ≡ "/a/c")
    × (clean "../a/../.." ≡ "../..")
    × (clean "" ≡ ".")
    × (clean "/.." ≡ "/")
    × (join_paths "/etc" "a/b" ≡ "/etc/a/b")
    × (dir "/a/b.toml" ≡ "/a")
unfolding clean clean_parts render join_paths dir
clean_tests = (refl, refl, refl, refl, refl, refl)
