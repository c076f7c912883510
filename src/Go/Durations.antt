-- ===== src/Go/Durations.antt =====
-- Sums and differences of instants and durations: an instant is a number of nanoseconds, a duration
-- is a signed 64-bit one. Sub of package time saturates, and the negation of the smallest
-- duration is that duration again.
use accountable.Prelude.{ℕ, zero, suc, ◌+◌, ◌-◌, ◌/◌, ◌≤◌, leb, eqb, if◌then◌else◌}
use accountable.Go.{ℤ, pos, negsuc, Duration}

abbrev pub pos_part : ℤ → ℕ
pos_part (pos n) = n
pos_part (negsuc n) = 0

abbrev pub neg_part : ℤ → ℕ
neg_part (pos n) = 0
neg_part (negsuc n) = suc n

-- a - b of two numbers
abbrev pub sub_ℕ : ℕ → ℕ → ℤ
sub_ℕ a b = if leb b a then pos (a - b) else negsuc (b - a - 1)

infixl 65 ◌+ℤ◌ ◌-ℤ◌
unfoldable pub ◌+ℤ◌ : ℤ → ℤ → ℤ
a +ℤ b = sub_ℕ (pos_part a + pos_part b) (neg_part a + neg_part b)

unfoldable pub ◌-ℤ◌ : ℤ → ℤ → ℤ
a -ℤ b = sub_ℕ (pos_part a + neg_part b) (neg_part a + pos_part b)

infix 50 ◌≤ℤ◌
abbrev pub ◌≤ℤ◌ : ℤ → ℤ → Type 0
a ≤ℤ b = pos_part a + neg_part b ≤ pos_part b + neg_part a

-- 1<<63 - 1
abbrev pub max_duration : ℕ
max_duration = 9223372036854775807

abbrev pub saturate : ℤ → Duration
saturate (pos n) = if leb n max_duration then pos n else pos max_duration
saturate (negsuc n) = if leb n max_duration then negsuc n else negsuc max_duration

-- a.Sub(b)
unfoldable pub sub : ℤ → ℤ → Duration
unfolding ◌-ℤ◌
sub a b = saturate (a -ℤ b)

-- -d
abbrev pub negate : Duration → Duration
negate (pos zero) = pos zero
negate (pos (suc n)) = negsuc n
negate (negsuc n) = if eqb n max_duration then negsuc n else pos (suc n)

-- d / 2, towards zero
abbrev pub half : Duration → Duration
half (pos n) = pos (n / 2)
half (negsuc n) = negate (pos (suc n / 2))

-- d.Milliseconds(), towards zero
abbrev pub milliseconds : Duration → ℤ
milliseconds (pos n) = pos (n / 1_000_000)
milliseconds (negsuc n) = negate (pos (suc n / 1_000_000))
