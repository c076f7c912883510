-- ===== src/Bootstrap/Config/Failure.antt =====
-- How parsing a configuration can fail, and the small helpers of internal/bootstrap/config.go.
use Prim.Native.String.{◌++◌ as concat}
use accountable.Prelude.{
  String, Bool, false, not, ◌&&◌, ◌||◌, Option, none, some, Result, ok, err, reject, ◌==◌,
  if◌then◌else◌,
}
use accountable.Go.{Duration, Parsers, not_positive}
use accountable.Text.Paths.{is_abs, clean, join_paths}
use accountable.Text.Patterns.{aws_kms_key_arn_pattern}

-- An error that is returned, or the run-time panic of a nil dereference.
pub data Failure : Type 0 where
  message : String → Failure
  nil_dereference : Failure

-- fmt.Errorf("prefix: %w", err)
abbrev pub wrap {ℓ} : {A : Type ℓ} → String → Result String A → Result Failure A
wrap prefix (ok a) = ok a
wrap prefix (err e) = err (message (concat prefix (concat ": " e)))

-- *pointer
abbrev pub dereference {ℓ} : {A : Type ℓ} → Option A → Result Failure A
dereference none = err nil_dereference
dereference (some a) = ok a

unfoldable pub absolute_from : String → String → String
absolute_from base value = if is_abs value then clean value else join_paths base value

positive : String → Option Duration → Result Failure Duration
positive field none = err (message (concat field " must be a positive duration"))
positive field (some duration) =
    if not_positive duration
    then err (message (concat field " must be a positive duration"))
    else ok duration

unfoldable pub parse_positive_duration : Parsers → String → String → Result Failure Duration
unfolding positive
parse_positive_duration go field value = positive field (go.parse_duration value)

-- validateKMSKeyARN on the pattern's groups: the region must match, and the account unless it is "".
unfoldable pub groups_match : Option (String × String) → String → String → Bool
groups_match none region account = false
groups_match (some (r, a)) region account = r == region && (account == "" || a == account)

unfoldable pub validate_kms_key_arn : String → String → String → Result String (Unit {0})
unfolding groups_match
validate_kms_key_arn value region account =
    reject (not (groups_match (aws_kms_key_arn_pattern value) region account))
      "must be a key ARN in the configured region and account"

-- if condition { return ..., errors.New(text) }
abbrev pub refuse : Bool → String → Result Failure (Unit {0})
refuse condition text = reject condition (message text)
