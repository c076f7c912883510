-- ===== src/Go.antt =====
-- Go values that several parts use: signed integers and durations, URLs, and the two parsers of the
-- standard library that the model takes as parameters.
pub mod Durations
use Prim.Native.Nat.{ℕ, ◌<◌, ◌≤◌}
use accountable.Prelude.{String, Bool, true, false, Option, ltb, leb, eqb}

-- A signed integer; `negsuc n` is -(n + 1).
pub data ℤ : Type 0 where
  pos : ℕ → ℤ
  negsuc : ℕ → ℤ

-- n <= 0
abbrev pub not_positive : ℤ → Bool
not_positive (pos n) = leb n 0
not_positive (negsuc n) = true

-- a < b
abbrev pub int_ltb : ℤ → ℤ → Bool
int_ltb (pos a) (pos b) = ltb a b
int_ltb (pos a) (negsuc b) = false
int_ltb (negsuc a) (pos b) = true
int_ltb (negsuc a) (negsuc b) = ltb b a

-- a == b
abbrev pub int_eqb : ℤ → ℤ → Bool
int_eqb (pos a) (pos b) = eqb a b
int_eqb (negsuc a) (negsuc b) = eqb a b
int_eqb a b = false

abbrev pub IsPositive : ℤ → Type 0
IsPositive (pos n) = 0 < n
IsPositive (negsuc n) = ⊥

-- time.Duration, in nanoseconds
abbrev pub Duration : Type 0
Duration = ℤ

abbrev pub second : ℕ
second = 1_000_000_000

-- The fields of url.URL that the sources read; `text` is what its String method returns.
pub record Url : Type 0 where
  pub scheme : String
  pub host : String
  pub has_user : Bool
  pub path : String
  pub raw_query : String
  pub fragment : String
  pub text : String

-- time.ParseDuration and url.Parse; `none` is an error.
pub record Parsers : Type 0 where
  pub parse_duration : String → Option Duration
  pub parse_url : String → Option Url

-- lo ≤ n ≤ hi
abbrev pub IsWithin : ℕ → ℕ → ℤ → Type 0
IsWithin lo hi (pos n) = (lo ≤ n) × (n ≤ hi)
IsWithin lo hi (negsuc n) = ⊥
