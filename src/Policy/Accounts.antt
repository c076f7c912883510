-- ===== src/Policy/Accounts.antt =====
-- accountViolations of internal/tofupolicy/policy.go.
use Prim.Native.String.{◌++◌ as concat}
use accountable.Prelude.{
  append-eq-nil, String, Bool, true, false, not, ◌||◌, ◌≡◌, List, [], ◌∷◌, ◌++◌, Option, none, some,
  ◌==◌, if◌then◌else◌, is_some, arith, eq_iff, Option-cases, inl, inr, All,
}
use accountable.Text.{has_prefix}
use accountable.Json.{Json, str, arr, nil, item}
use accountable.Maps.{Dict, lookup}
use accountable.Policy.{Violation, RawMessage, ProviderConfiguration, Expression, Decoders}

-- accounts, ok := ConstantValue.([]any); ok && len(accounts) == 1 && accounts[0] == expected
allows_only : Option Json → String → Bool
allows_only (some (arr (item (str account) nil))) expected = account == expected
allows_only _ expected = false

abbrev pub is_aws : String → Bool
is_aws name = name == "aws" || has_prefix name "aws."

abbrev at_provider : String → String → List Violation
at_provider name message = record { address = concat "provider." name; message = message } ∷ []

module _ (go : Decoders) (expected : String) where
  decoded_violations : String → Expression × Bool → List Violation
  decoded_violations name (value, decoded) =
      if not decoded
      then at_provider name "AWS provider account allow-list cannot be proven"
      else if allows_only value.constant_value expected
      then []
      else at_provider name "AWS provider account allow-list does not match the expected account"

  -- one round of the loop over the providers
  provider_violations : String → ProviderConfiguration → List Violation
  unfolding decoded_violations allows_only
  provider_violations name provider =
      if not (is_aws name) then [] else elim (lookup "allowed_account_ids" provider.expressions) [
        | none ↦ at_provider name "AWS provider has no account allow-list"
        | some raw ↦ decoded_violations name (go.decode_expression raw)
      ]

  all_provider_violations : Dict ProviderConfiguration → List Violation
  unfolding provider_violations
  all_provider_violations [] = []
  all_provider_violations ((name, provider) ∷ rest) =
      provider_violations name provider ++ all_provider_violations rest

  unfoldable pub account_violations : Dict ProviderConfiguration → List Violation
  unfolding all_provider_violations
  account_violations configurations =
      if not (is_some (lookup "aws" configurations))
      then at_provider "aws" "default AWS provider does not prove the expected account"
      else all_provider_violations configurations

  -- The provider's allow-list is the expected account and no other.
  pub record Pinned (provider : ProviderConfiguration) : Type 0 where
    pub raw : RawMessage
    pub listed : lookup "allowed_account_ids" provider.expressions ≡ some raw
    pub value : (go.decode_expression raw).0.constant_value ≡ some (arr (item (str expected) nil))

  allows_only_sound :
      (value : Option Json)
      → allows_only value expected ≡ true
      → value ≡ some (arr (item (str expected) nil))
  unfolding allows_only
  allows_only_sound (some (arr (item (str account) nil))) h =
      ground (arith, eq_iff account expected)
  allows_only_sound _ h = cc

  provider_violations_sound :
      (name : String) (provider : ProviderConfiguration)
      → provider_violations name provider ≡ []
      → is_aws name ≡ true
      → Pinned provider
  unfolding provider_violations
  provider_violations_sound name provider h a =
      elim (Option-cases (lookup "allowed_account_ids" provider.expressions)) [
        | inl missing ↦ absurd (ground arith)
        | inr (raw, listed) ↦ record {
          raw = raw;
          listed = listed;
          value = allows_only_sound (go.decode_expression raw).0.constant_value (ground arith);
        }
      ]

  all_provider_violations_sound :
      (configurations : Dict ProviderConfiguration)
      → all_provider_violations configurations ≡ []
      → All (λ (p : String × ProviderConfiguration). is_aws p.0 ≡ true → Pinned p.1) configurations
  unfolding all_provider_violations
  all_provider_violations_sound [] h = tt
  all_provider_violations_sound ((name, provider) ∷ rest) h =
      let (here, later) =
        append-eq-nil (provider_violations name provider) (all_provider_violations rest) h in
      (provider_violations_sound name provider here, all_provider_violations_sound rest later)

  -- A plan passes the account check only if it has the default AWS provider, and every AWS
  -- provider, aliased or not, is pinned to the expected account.
  pub account_violations_sound :
      (configurations : Dict ProviderConfiguration)
      → account_violations configurations ≡ []
      → (is_some (lookup "aws" configurations) ≡ true)
        × All
            (λ (p : String × ProviderConfiguration). is_aws p.0 ≡ true → Pinned p.1)
            configurations
  unfolding account_violations
  account_violations_sound configurations h =
      (ground arith, all_provider_violations_sound configurations (ground arith))
