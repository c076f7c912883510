-- ===== src/Apierror/MessageKey.antt =====
-- internal/apierror/messagekey.go
use Prim.Native.Char.{code}
use accountable.Prelude.{
  ℕ, ◌≤◌, String, Bool, true, false, not, ◌&&◌, ◌||◌, ◌≡◌, all, All, length, eqb, ltb, arith,
  all-All, ◌==◌,
}
use accountable.Text.{split, any_char, all_chars}
use accountable.Text.Patterns.{is_lower, is_upper, is_digit}

-- strings.ContainsAny(key, " \t\n\r")
abbrev is_blank : ℕ → Bool
is_blank c = eqb c 0x20 || eqb c 0x09 || eqb c 0x0a || eqb c 0x0d

-- the test of a rune at an index above 0
abbrev is_key_char : ℕ → Bool
is_key_char c = is_lower c || is_upper c || is_digit c || eqb c 0x5f

-- The checks of one part: no rune but a letter or a digit, or later `_`, and no digit first.
unfoldable pub is_key_part : String → Bool
unfolding all_chars
is_key_part String.[] = false
is_key_part (String.◌∷◌ c s) =
    (is_lower (code c) || is_upper (code c) || is_digit (code c))
    && all_chars is_key_char s
    && not (is_digit (code c))

unfoldable pub valid_message_key : String → Bool
unfolding is_key_part any_char split
valid_message_key key =
    not (key == "" || any_char is_blank key)
    && not (ltb (length (split "." key)) 2)
    && all is_key_part (split "." key)

-- A letter, then letters, digits and `_`.
abbrev pub KeyPart : String → Type 0
KeyPart String.[] = ⊥
KeyPart (String.◌∷◌ c s) =
    ((is_lower (code c) || is_upper (code c)) ≡ true) × (all_chars is_key_char s ≡ true)

is_key_part-KeyPart : (part : String) → is_key_part part ≡ true → KeyPart part
unfolding is_key_part
is_key_part-KeyPart String.[] h = cc
is_key_part-KeyPart (String.◌∷◌ c s) h = (ground arith, ground arith)

-- ValidMessageKey accepts a text only if the dots in it part it into two or more names, each a
-- letter followed by letters, digits and underscores.
pub valid_message_key_sound :
    (key : String)
    → valid_message_key key ≡ true
    → (2 ≤ length (split "." key)) × All KeyPart (split "." key)
unfolding valid_message_key
valid_message_key_sound key h =
    (ground arith, all-All KeyPart is_key_part is_key_part-KeyPart (split "." key) (ground arith))
