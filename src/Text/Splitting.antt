-- ===== src/Text/Splitting.antt =====
-- Laws of `has_prefix`, `split` and `join`.
use Prim.Native.Char.{Char, code}
use Prim.Native.String
use Prim.Native.String.{[], ◌∷◌}
use text.Mathlib.TextEquality.{Char-path}
use text.Mathlib.TextLemmas.{nil-append, cons-append}
use accountable.Prelude.{
  String, ◌≡◌, ◌≢◌, refl, sym, ap, List, ◌++◌, ◌∙◌, Bool-cases, inl, inr, All, true, arith, eqb,
  eqb_iff,
}
use accountable.Text.{has_prefix, drop_prefix, push_head, split, join}

-- No rune of the text is the separator.
abbrev pub LacksChar : Char → String → Type 0
LacksChar sep [] = Unit
LacksChar sep (c ∷ s) = (code c ≢ code sep) × LacksChar sep s

push_head-LacksChar :
    (sep c : Char) (parts : List String)
    → code c ≢ code sep
    → All (LacksChar sep) parts
    → All (LacksChar sep) (push_head c parts)
push_head-LacksChar sep c List.[] n h = ((n, tt), tt)
push_head-LacksChar sep c (List.◌∷◌ part parts) n h = ((n, h.0), h.1)

-- No part of a split text holds the separator.
pub split-LacksChar : (sep : Char) (s : String) → All (LacksChar sep) (split sep s)
unfolding split
split-LacksChar sep [] = (tt, tt)
split-LacksChar sep (c ∷ s) = ground (
  arith,
  split-LacksChar sep s,
  push_head-LacksChar sep c (split sep s),
  eqb_iff (code c) (code sep),
)

-- Splitting after a part that lacks the separator takes the part off.
pub split-append_sep :
    (sep : Char) (part s : String)
    → LacksChar sep part
    → split sep (String.◌++◌ part (sep ∷ s)) ≡ List.◌∷◌ part (split sep s)
unfolding split
split-append_sep sep [] s h = ground (arith, nil-append (sep ∷ s))
split-append_sep sep (c ∷ part) s h =
    rw (cons-append c part (sep ∷ s)) (ground (arith, split-append_sep sep part s h.1))

pub split_of_LacksChar :
    (sep : Char) (part : String) → LacksChar sep part → split sep part ≡ List.◌∷◌ part List.[]
unfolding split
split_of_LacksChar sep [] h = refl
split_of_LacksChar sep (c ∷ part) h = ground (arith, split_of_LacksChar sep part h.1)

-- Splitting undoes joining, for parts that lack the separator.
pub split-join :
    (sep : Char) (part : String) (parts : List String)
    → All (LacksChar sep) (List.◌∷◌ part parts)
    → split sep (join sep (List.◌∷◌ part parts)) ≡ List.◌∷◌ part parts
unfolding join
split-join sep part List.[] h = split_of_LacksChar sep part h.0
split-join sep part (List.◌∷◌ next parts) h =
    rw (
      split-append_sep sep part (join sep (List.◌∷◌ next parts)) h.0,
      split-join sep next parts h.1,
    )

append-push_head :
    (c : Char) (parts more : List String)
    → parts ≢ List.[]
    → push_head c (parts ++ more) ≡ push_head c parts ++ more
append-push_head c List.[] more h = absurd (h refl)
append-push_head c (List.◌∷◌ part parts) more h = refl

pub split-ne-nil : (sep : Char) (s : String) → split sep s ≢ List.[]
unfolding split
split-ne-nil sep [] = ground arith
split-ne-nil sep (c ∷ s) = ground (arith, split-ne-nil sep s)

-- A separator between two texts separates their parts.
pub split-append :
    (sep : Char) (s t : String) → split sep (String.◌++◌ s (sep ∷ t)) ≡ split sep s ++ split sep t
unfolding split
split-append sep [] t = ground (arith, nil-append (sep ∷ t))
split-append sep (c ∷ s) t = rw (cons-append c s (sep ∷ t)) (
    ground (
      arith,
      split-append sep s t,
      split-ne-nil sep s,
      append-push_head c (split sep s) (split sep t),
    ))

join-push_head :
    (sep c : Char) (parts : List String)
    → parts ≢ List.[]
    → join sep (push_head c parts) ≡ String.◌∷◌ c (join sep parts)
unfolding join
join-push_head sep c List.[] h = absurd (h refl)
join-push_head sep c (List.◌∷◌ part List.[]) h = refl
join-push_head sep c (List.◌∷◌ part (List.◌∷◌ next parts)) h =
    cons-append c part (sep ∷ join sep (List.◌∷◌ next parts))

join-nil_head :
    (sep : Char) (parts : List String)
    → parts ≢ List.[]
    → join sep (List.◌∷◌ [] parts) ≡ String.◌∷◌ sep (join sep parts)
unfolding join
join-nil_head sep List.[] h = absurd (h refl)
join-nil_head sep (List.◌∷◌ next parts) h = nil-append (sep ∷ join sep (List.◌∷◌ next parts))

-- Joining undoes splitting.
pub join-split : (sep : Char) (s : String) → join sep (split sep s) ≡ s
unfolding split
join-split sep [] = unfold join in refl
join-split sep (c ∷ s) = elim (Bool-cases (eqb (code c) (code sep))) [
  | inl e ↦ rw e (
      join-nil_head sep (split sep s) (split-ne-nil sep s)
      ∙ ap (String.◌∷◌ sep) (join-split sep s)
      ∙ ap (λ x. String.◌∷◌ x s) (sym (Char-path c sep ((eqb_iff (code c) (code sep)).0 e))))
  | inr e ↦ rw e (
      join-push_head sep c (split sep s) (split-ne-nil sep s)
      ∙ ap (String.◌∷◌ c) (join-split sep s))
]

-- A text with a prefix is the prefix, then the rest.
pub append-drop_prefix :
    (s prefix : String) → has_prefix s prefix ≡ true → String.◌++◌ prefix (drop_prefix s prefix) ≡ s
unfolding has_prefix drop_prefix
append-drop_prefix s [] h = nil-append s
append-drop_prefix [] (p ∷ prefix) h = cc
append-drop_prefix (c ∷ s) (p ∷ prefix) h =
    cons-append p prefix (drop_prefix s prefix)
    ∙ ap (String.◌∷◌ p) (append-drop_prefix s prefix (ground arith))
    ∙ ap (λ x. String.◌∷◌ x s) (Char-path p c (ground arith))
