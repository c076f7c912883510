-- ===== src/Text/Patterns.antt =====
-- Character classes, and the regular expressions that the sources compile, as matchers.
-- Each pattern is anchored by ^ and $, so a match is a match of the whole text. A pattern whose
-- fields hold no separator is matched on the parts between its separators.
use Prim.Native.String.{[], ◌∷◌}
use Prim.Native.Char.{code}
use accountable.Prelude.{
  ℕ, String, Bool, false, ◌&&◌, ◌||◌, List, Option, none, some, eqb, leb, not, ◌==◌, if◌then◌else◌,
}
use accountable.Text.{has_prefix, drop_prefix, all_chars, rune_count, split}

abbrev pub is_lower : ℕ → Bool
is_lower c = leb b'a' c && leb c b'z'

abbrev pub is_upper : ℕ → Bool
is_upper c = leb b'A' c && leb c b'Z'

abbrev pub is_digit : ℕ → Bool
is_digit c = leb b'0' c && leb c b'9'

abbrev pub is_alnum : ℕ → Bool
is_alnum c = is_lower c || is_upper c || is_digit c

-- [-A-Za-z0-9._]
abbrev pub is_identifier_char : ℕ → Bool
is_identifier_char c = is_alnum c || eqb c b'.' || eqb c b'_' || eqb c b'-'

-- ^[class]{lo,hi}$
unfoldable pub of_class : (ℕ → Bool) → ℕ → ℕ → String → Bool
unfolding all_chars rune_count
of_class p lo hi s = leb lo (rune_count s) && leb (rune_count s) hi && all_chars p s

-- ^[class]+$
unfoldable pub of_some : (ℕ → Bool) → String → Bool
unfolding all_chars
of_some p s = not (s == "") && all_chars p s

-- ^[first][rest]{0,most}$
unfoldable pub of_head : (ℕ → Bool) → (ℕ → Bool) → ℕ → String → Bool
unfolding all_chars rune_count
of_head first rest most [] = false
of_head first rest most (c ∷ s) = first (code c) && leb (rune_count s) most && all_chars rest s

-- ^[-A-Za-z0-9._]{1,128}$
unfoldable pub configuration_revision_pattern : String → Bool
unfolding of_class
configuration_revision_pattern = of_class is_identifier_char 1 128

-- ^[-A-Za-z0-9._]{1,64}$
unfoldable pub cell_id_pattern : String → Bool
unfolding of_class
cell_id_pattern = of_class is_identifier_char 1 64

-- ^[A-Za-z_][A-Za-z0-9_]{0,62}$
unfoldable pub postgres_identifier : String → Bool
unfolding of_head
postgres_identifier =
    of_head (λ c. is_lower c || is_upper c || eqb c b'_') (λ c. is_alnum c || eqb c b'_') 62

-- ^[a-z]{2}(?:-gov)?-[a-z]+-\d$, on the parts between the dashes
is_region : List String → Bool
unfolding of_class of_some
is_region (List.◌∷◌ area (List.◌∷◌ name (List.◌∷◌ number List.[]))) =
    of_class is_lower 2 2 area && of_some is_lower name && of_class is_digit 1 1 number
is_region (List.◌∷◌ area (List.◌∷◌ gov (List.◌∷◌ name (List.◌∷◌ number List.[])))) =
    of_class is_lower 2 2 area
    && gov == "gov"
    && of_some is_lower name
    && of_class is_digit 1 1 number
is_region _ = false

unfoldable pub aws_region_pattern : String → Bool
unfolding is_region split
aws_region_pattern s = is_region (split "-" s)

-- ^[0-9]{12}$
unfoldable pub aws_account_pattern : String → Bool
unfolding of_class
aws_account_pattern = of_class is_digit 12 12

last_is : (ℕ → Bool) → String → Bool
last_is p [] = false
last_is p (c ∷ []) = p (code c)
last_is p (c ∷ d ∷ s) = last_is p (d ∷ s)

first_is : (ℕ → Bool) → String → Bool
first_is p [] = false
first_is p (c ∷ s) = p (code c)

-- ^[a-z0-9][a-z0-9.-]{1,61}[a-z0-9]$
unfoldable pub s3_bucket_pattern : String → Bool
unfolding of_class first_is last_is
s3_bucket_pattern s =
    of_class (λ c. is_lower c || is_digit c || eqb c b'.' || eqb c b'-') 3 63 s
    && first_is (λ c. is_lower c || is_digit c) s
    && last_is (λ c. is_lower c || is_digit c) s

-- ^arn:aws(?:-us-gov)?:kms:([a-z0-9-]+):([0-9]{12}):key/[A-Za-z0-9-]+$, on the parts between the
-- colons; the result is the two groups.
key_arn_groups : List String → Option (String × String)
unfolding of_class of_some has_prefix drop_prefix
key_arn_groups
      (List.◌∷◌ arn
        (List.◌∷◌ aws (List.◌∷◌ kms (List.◌∷◌ region (List.◌∷◌ account (List.◌∷◌ key List.[])))))) =
    if arn == "arn"
      && (aws == "aws" || aws == "aws-us-gov")
      && kms == "kms"
      && of_some (λ c. is_lower c || is_digit c || eqb c b'-') region
      && of_class is_digit 12 12 account
      && has_prefix key "key/"
      && of_some (λ c. is_alnum c || eqb c b'-') (drop_prefix key "key/")
    then some (region, account)
    else none
key_arn_groups _ = none

unfoldable pub aws_kms_key_arn_pattern : String → Option (String × String)
unfolding key_arn_groups split
aws_kms_key_arn_pattern s = key_arn_groups (split ":" s)
