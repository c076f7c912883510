-- ===== src/Secret/Ref.antt =====
-- internal/platform/secret/ref.go
pub mod Laws
use accountable.Prelude.{
  ℕ, String, Bool, true, false, not, ◌&&◌, ◌||◌, List, [], ◌∷◌, any, Result, ok, err, reject, ◌>>=◌,
  ◌>>◌, ◌==◌, eqb,
}
use accountable.Text.{has_prefix, split}
use accountable.Text.Patterns.{is_alnum, of_head}
use accountable.Text.Paths.{is_abs, clean}

abbrev pub provider_file : String
provider_file = "file"

abbrev pub provider_infisical : String
provider_infisical = "infisical"

abbrev pub auth_aws_iam : String
auth_aws_iam = "aws_iam"

abbrev pub infisical_cloud_eu_endpoint : String
infisical_cloud_eu_endpoint = "https://eu.infisical.com"

pub record SecretConfig : Type 0 where
  pub provider : String
  pub directory : String
  pub site_url : String
  pub aws_region : String
  pub project_id : String
  pub environment : String
  pub secret_path : String
  pub auth_method : String
  pub machine_identity_id : String

-- [A-Za-z0-9._:/-]
abbrev pub is_ref_char : ℕ → Bool
is_ref_char c = is_alnum c || eqb c b'.' || eqb c b'_' || eqb c b':' || eqb c b'/' || eqb c b'-'

-- secretRefPattern, ^[A-Za-z0-9][A-Za-z0-9._:/-]{0,127}$
unfoldable pub secret_ref_pattern : String → Bool
unfolding of_head
secret_ref_pattern = of_head is_alnum is_ref_char 127

abbrev pub bad_reference : String
bad_reference =
    "must be a 1 to 128 character reference using only letters, digits, '.', '_', ':', '/', or '-'"

abbrev pub traverses : String
traverses = "must not traverse directories"

-- ParseRef: an accepted reference is the text itself. The test `len(value) >= 3 && value[:3] ==
-- "../"` is that of the prefix.
unfoldable pub parse_ref : String → Result String String
parse_ref value = do
  reject (not (secret_ref_pattern value) || is_abs value || value == "." || value == "..")
      bad_reference
  reject (any (λ segment. segment == "..") (split "/" value)) traverses
  reject (not (clean value == value) || value == ".." || has_prefix value "../") traverses
  ok value
