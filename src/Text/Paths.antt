-- ===== src/Text/Paths.antt =====
-- Go's path and path/filepath on a Unix system: `IsAbs`, `Clean`, `Join`, `Dir`. Both packages
-- clean alike there.
pub mod Clean
pub mod Rel
use Prim.Native.Char.{code}
use Prim.Native.String
use Prim.Native.String.{[], ◌∷◌}
use mathlib.Core.List
use mathlib.Core.List.{reverse}
use accountable.Prelude.{String, Bool, true, false, ◌||◌, List, eqb, ◌==◌, if◌then◌else◌}
use accountable.Text.{has_prefix, any_char, split, join}

unfoldable pub is_abs : String → Bool
unfolding has_prefix
is_abs path = has_prefix path "/"

-- The parts kept so far, the last one first; ".." removes the last one unless there is none or it
-- is itself a "..". At the root ".." is dropped.
pub pop : Bool → List String → List String
pop true List.[] = List.[]
pop false List.[] = List.◌∷◌ ".." List.[]
pop rooted (List.◌∷◌ last kept) = if last == ".." then List.◌∷◌ ".." (List.◌∷◌ last kept) else kept

pub resolve : Bool → List String → String → List String
unfolding pop
resolve rooted kept part =
    if part == "" || part == "."
    then kept
    else if part == ".."
    then pop rooted kept
    else List.◌∷◌ part kept

pub resolve_all : Bool → List String → List String → List String
unfolding resolve
resolve_all rooted kept List.[] = reverse kept
resolve_all rooted kept (List.◌∷◌ part parts) = resolve_all rooted (resolve rooted kept part) parts

unfoldable pub render : Bool → List String → String
unfolding join
render true parts = String.◌++◌ "/" (join "/" parts)
render false List.[] = "."
render false (List.◌∷◌ part parts) = join "/" (List.◌∷◌ part parts)

-- The parts that are left of a path once it is cleaned.
unfoldable pub clean_parts : String → List String
unfolding resolve_all is_abs split
clean_parts path = resolve_all (is_abs path) List.[] (split "/" path)

-- filepath.Clean
unfoldable pub clean : String → String
clean path = if path == "" then "." else render (is_abs path) (clean_parts path)

-- filepath.Join of two elements
unfoldable pub join_paths : String → String → String
join_paths base path =
    if base == ""
    then (if path == "" then "" else clean path)
    else clean (String.◌++◌ base (String.◌++◌ "/" path))

-- A path up to its last slash, that included.
up_to_slash : String → String
unfolding any_char
up_to_slash [] = []
up_to_slash (c ∷ s) =
    let rest = up_to_slash s in if any_char (eqb b'/') (c ∷ s) then c ∷ rest else []

-- filepath.Dir
unfoldable pub dir : String → String
unfolding up_to_slash
dir path = clean (up_to_slash path)
