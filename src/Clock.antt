-- ===== src/Clock.antt =====
-- internal/platform/clock. An instant is a number of nanoseconds from the Unix epoch, which is a whole
-- number of microseconds after the zero time that Truncate counts from.
use Prim.Native.Nat.{bit_and}
use accountable.Prelude.{
  ℕ, suc, ◌+◌, ◌-◌, ◌*◌, ◌/◌, String, Bool, true, not, ◌||◌, ◌≡◌, ap, Option, none, some, Result,
  ◌>>◌, reject, eqb, if◌then◌else◌, arith,
}
use accountable.Go.{ℤ, pos, negsuc, Duration, int_ltb, int_eqb}
use accountable.Secret.File.{context}

-- t.UTC().Truncate(time.Microsecond)
unfoldable pub to_contract : ℤ → ℤ
to_contract (pos n) = pos (n / 1000 * 1000)
to_contract (negsuc n) = negsuc (n / 1000 * 1000 + 999)

abbrev pub kernel_time_error : ℤ
kernel_time_error = pos 5

abbrev pub kernel_status_unsync : ℕ
kernel_status_unsync = 0x40

abbrev pub kernel_status_clock_error : ℕ
kernel_status_clock_error = 0x1000

-- `status` is the unsigned reading of its 32 bits.
pub record KernelTimeState : Type 0 where
  pub state : ℤ
  pub status : ℕ
  pub max_error_micros : ℤ

-- d.Microseconds(), towards zero, for a duration that is not negative
abbrev pub microseconds : Duration → ℤ
microseconds (pos n) = pos (n / 1000)
microseconds (negsuc n) = if eqb (suc n / 1000) 0 then pos 0 else negsuc (suc n / 1000 - 1)

abbrev pub unsynchronized : Duration → Option KernelTimeState → Bool
unsynchronized maximum none = true
unsynchronized maximum (some state) =
    int_eqb state.state kernel_time_error
    || not (eqb (bit_and state.status (kernel_status_unsync + kernel_status_clock_error)) 0)
    || int_ltb state.max_error_micros (pos 0)
    || int_ltb (microseconds maximum) state.max_error_micros

abbrev pub clock_unsynchronized : String
clock_unsynchronized = "system clock is not synchronized"

-- `read` is the kernel's answer; `none` is an error.
unfoldable pub check_linux :
    Duration → Option KernelTimeState → Option String → Result String (Unit {0})
check_linux maximum read context_error = do
  context context_error
  reject (unsynchronized maximum read) clock_unsynchronized

-- SystemHealth
unfoldable pub check_system : Option String → Result String (Unit {0})
check_system context_error = context context_error

-- A second truncation changes nothing.
pub to_contract-idempotent : (t : ℤ) → to_contract (to_contract t) ≡ to_contract t
unfolding to_contract
to_contract-idempotent (pos n) = ap pos (omega arith)
to_contract-idempotent (negsuc n) = ap negsuc (omega arith)
