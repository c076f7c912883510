-- ===== src/Database/Clock.antt =====
-- CheckClock of internal/platform/database/database.go: the database's clock against the middle of
-- two readings of the program's clock.
use accountable.Prelude.{
  ℕ, ◌<◌, false, ◌≡◌, ◌↔◌, ◌⊎◌, inl, inr, Option, none, some, Result, ok, err, reject,
  if◌then◌else◌, arith,
}
use accountable.Go.{ℤ, pos, negsuc, Duration, int_ltb}
use accountable.Go.Durations.{◌+ℤ◌, ◌-ℤ◌, ◌≤ℤ◌, sub, negate, half, max_duration, saturate}
use accountable.Database.Schema.{DatabaseError, database_unavailable, database_clock_skew}

unfoldable pub midpoint : ℤ → ℤ → ℤ
midpoint before after = before +ℤ half (sub after before)

-- if skew < 0 { skew = -skew }
abbrev pub magnitude : Duration → Duration
magnitude skew = if int_ltb skew (pos 0) then negate skew else skew

-- `none` is an error of the query.
unfoldable pub check_clock : ℤ → Option ℤ → ℤ → Duration → Result DatabaseError (Unit {0})
check_clock before none after maximum = err database_unavailable
check_clock before (some database) after maximum =
    reject (int_ltb maximum (magnitude (sub database (midpoint before after)))) database_clock_skew

magnitude_iff :
    (difference : ℤ) (maximum : ℕ)
    → maximum < max_duration
    → (int_ltb (pos maximum) (magnitude (saturate difference)) ≡ false) ↔ (
        ((difference ≤ℤ pos maximum) × (pos 0 ≤ℤ difference +ℤ pos maximum))
        ⊎ (difference ≤ℤ negsuc max_duration))
unfolding ◌+ℤ◌
magnitude_iff difference maximum h = ground arith

-- CheckClock accepts the database's clock exactly when it is at most the maximum away from the
-- midpoint of the two readings, or at least 2^63 nanoseconds behind it: such a skew saturates to
-- the smallest duration, whose negation is still negative.
pub check_clock_iff :
    (before database after : ℤ) (maximum : ℕ)
    → maximum < max_duration
    → (check_clock before (some database) after (pos maximum) ≡ ok tt) ↔ (
        ((database -ℤ midpoint before after ≤ℤ pos maximum)
          × (pos 0 ≤ℤ database -ℤ midpoint before after +ℤ pos maximum))
        ⊎ (database -ℤ midpoint before after ≤ℤ negsuc max_duration))
unfolding check_clock sub
check_clock_iff before database after maximum h =
    let rule = magnitude_iff (database -ℤ midpoint before after) maximum h in ground (arith, rule)

midpoint_bounds :
    (before after : ℤ)
    → before ≤ℤ after
    → after -ℤ before ≤ℤ pos max_duration
    → (before ≤ℤ midpoint before after) × (midpoint before after ≤ℤ after)
unfolding midpoint ◌+ℤ◌ ◌-ℤ◌ sub
midpoint_bounds before after h k = ground arith

near_bounds :
    (before middle after database : ℤ) (maximum : ℕ)
    → before ≤ℤ middle
    → middle ≤ℤ after
    → database -ℤ middle ≤ℤ pos maximum
    → pos 0 ≤ℤ database -ℤ middle +ℤ pos maximum
    → (before ≤ℤ database +ℤ pos maximum) × (database ≤ℤ after +ℤ pos maximum)
unfolding ◌+ℤ◌ ◌-ℤ◌
near_bounds before middle after database maximum b a u l = ground arith

-- When CheckClock succeeds, for readings in order and at most 2^63 - 1 nanoseconds apart and a
-- database's clock less than 2^63 nanoseconds behind their midpoint, the database's clock is no
-- more than the maximum before the first reading and no more than the maximum after the second.
pub check_clock_bounds :
    (before database after : ℤ) (maximum : ℕ)
    → maximum < max_duration
    → before ≤ℤ after
    → after -ℤ before ≤ℤ pos max_duration
    → ¬ (database -ℤ midpoint before after ≤ℤ negsuc max_duration)
    → check_clock before (some database) after (pos maximum) ≡ ok tt
    → (before ≤ℤ database +ℤ pos maximum) × (database ≤ℤ after +ℤ pos maximum)
check_clock_bounds before database after maximum h order apart near accepted =
    let (low, high) = midpoint_bounds before after order apart in
    elim ((check_clock_iff before database after maximum h).0 accepted) [
      | inl (u, l) ↦ near_bounds before (midpoint before after) after database maximum low high u l
      | inr far ↦ absurd (near far)
    ]
