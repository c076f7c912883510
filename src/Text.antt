-- ===== src/Text.antt =====
-- The parts of Go's `strings` and `regexp` packages that the sources use, over code points.
-- Go strings are taken to be valid UTF-8, so a code point is a rune.
pub mod Paths
pub mod Patterns
pub mod Splitting
use Prim.Native.Char.{Char, code}
use Prim.Native.String
use Prim.Native.String.{[], ◌∷◌}
use mathlib.Core.List
use accountable.Prelude.{
  ℕ, suc, String, Bool, true, false, ◌&&◌, ◌||◌, List, eqb, leb, if◌then◌else◌,
}

-- strings.HasPrefix
unfoldable pub has_prefix : String → String → Bool
has_prefix s [] = true
has_prefix [] (p ∷ prefix) = false
has_prefix (c ∷ s) (p ∷ prefix) = eqb (code c) (code p) && has_prefix s prefix

-- strings.TrimPrefix would be the rest; here the rest after a prefix that is known to be there.
unfoldable pub drop_prefix : String → String → String
drop_prefix s [] = s
drop_prefix [] (p ∷ prefix) = []
drop_prefix (c ∷ s) (p ∷ prefix) = drop_prefix s prefix

-- strings.Contains
unfoldable pub contains : String → String → Bool
unfolding has_prefix
contains [] needle = has_prefix [] needle
contains (c ∷ s) needle = has_prefix (c ∷ s) needle || contains s needle

-- the test of a character class at every rune
unfoldable pub all_chars : (ℕ → Bool) → String → Bool
all_chars p [] = true
all_chars p (c ∷ s) = p (code c) && all_chars p s

unfoldable pub any_char : (ℕ → Bool) → String → Bool
any_char p [] = false
any_char p (c ∷ s) = p (code c) || any_char p s

-- the number of runes
unfoldable pub rune_count : String → ℕ
rune_count [] = 0
rune_count (c ∷ s) = suc (rune_count s)

abbrev pub push_head : Char → List String → List String
push_head c List.[] = List.◌∷◌ (c ∷ []) List.[]
push_head c (List.◌∷◌ part parts) = List.◌∷◌ (c ∷ part) parts

-- strings.Split at a separator of one rune: n separators give n + 1 parts.
unfoldable pub split : Char → String → List String
split sep [] = List.◌∷◌ [] List.[]
split sep (c ∷ s) =
    let rest = split sep s in if eqb (code c) (code sep) then List.◌∷◌ [] rest else push_head c rest

-- strings.Join at a separator of one rune
unfoldable pub join : Char → List String → String
join sep List.[] = []
join sep (List.◌∷◌ part List.[]) = part
join sep (List.◌∷◌ part (List.◌∷◌ next parts)) =
    String.◌++◌ part (sep ∷ join sep (List.◌∷◌ next parts))

-- strings.TrimSuffix at a suffix of one rune
unfoldable pub trim_suffix : String → ℕ → String
trim_suffix [] r = []
trim_suffix (c ∷ []) r = if eqb (code c) r then [] else c ∷ []
trim_suffix (c ∷ d ∷ s) r = c ∷ trim_suffix (d ∷ s) r

-- The rest after the leading runes of a class.
unfoldable pub drop_while : (ℕ → Bool) → String → String
drop_while p [] = []
drop_while p (c ∷ s) = let rest = drop_while p s in if p (code c) then rest else c ∷ s
