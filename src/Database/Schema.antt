-- ===== src/Database/Schema.antt =====
-- The errors and the schema window of internal/platform/database/database.go.
use accountable.Prelude.{Bool, false, ◌≡◌, ◌↔◌, Result, ok, ◌>>◌, reject, arith}
use accountable.Go.{ℤ, pos, int_ltb}

pub data DatabaseError : Type 0 where
  database_unavailable : DatabaseError
  database_timezone : DatabaseError
  database_session : DatabaseError
  database_clock_skew : DatabaseError
  schema_behind : DatabaseError
  schema_dirty : DatabaseError
  schema_ahead : DatabaseError
  configuration_invalid : DatabaseError

abbrev pub minimum_schema_version : ℤ
minimum_schema_version = pos 20260801000000

abbrev pub maximum_schema_version : ℤ
maximum_schema_version = pos 20260801000000

unfoldable pub validate_schema_state : ℤ → Bool → Result DatabaseError (Unit {0})
validate_schema_state version dirty = do
  reject dirty schema_dirty
  reject (int_ltb version minimum_schema_version) schema_behind
  reject (int_ltb maximum_schema_version version) schema_ahead

-- The versions that the binary was compiled for.
pub validate_schema_state_iff :
    (version : ℤ) (dirty : Bool)
    → (validate_schema_state version dirty ≡ ok tt)
      ↔ ((dirty ≡ false) × (version ≡ pos 20260801000000))
unfolding validate_schema_state
validate_schema_state_iff version dirty = ground arith
