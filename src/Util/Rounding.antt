-- ===== src/Util/Rounding.antt =====
-- The conversions of Time and Duration to whole units (src/rix/util/time.cpp).
use rob320_p.Base.{ℕ, ◌*◌, ◌+◌, ◌≤◌, ◌<◌, ◌≡◌, arith}
use rob320_p.Base.Int.{ℤ, pos_part, neg_part}
use rob320_p.Util.Chrono.{IsCeil, IsFloor, ceil-IsCeil, duration_cast-IsFloor, round-IsNearest}
use rob320_p.Util.Chrono
use rob320_p.Util.Time
use rob320_p.Util.Time.{Time, RoundType}
use rob320_p.Util.Duration
use rob320_p.Util.Duration.{Duration}

-- At most half a unit of `k` off.
abbrev pub IsWithinHalf : ℕ → ℤ → ℤ → Type 0
IsWithinHalf k d c =
    (2 * (pos_part d + neg_part c * k) ≤ 2 * (pos_part c * k + neg_part d) + k)
    × (2 * (pos_part c * k + neg_part d) ≤ 2 * (pos_part d + neg_part c * k) + k)

within_half : (k : ℕ) (d : ℤ) → 0 < k → IsWithinHalf k d (rob320_p.Util.Chrono.round k d)
within_half k d h = let (low, high, _, _) = round-IsNearest k d h in (low, high)

-- With CEIL, to_seconds, to_milliseconds and to_microseconds of a time of either sign give the least
-- count of units that is not below it.
pub time-Ceil :
    (t : Time)
    → IsCeil 1_000_000_000 t.tp (Time.to_seconds t RoundType.ceil)
      × IsCeil 1_000_000 t.tp (Time.to_milliseconds t RoundType.ceil)
      × IsCeil 1_000 t.tp (Time.to_microseconds t RoundType.ceil)
unfolding Time.to_seconds Time.to_milliseconds Time.to_microseconds
time-Ceil t = (
  ceil-IsCeil 1_000_000_000 t.tp (omega arith),
  ceil-IsCeil 1_000_000 t.tp (omega arith),
  ceil-IsCeil 1_000 t.tp (omega arith),
)

-- With NEAREST, to_seconds, to_milliseconds and to_microseconds of a time of either sign are at most
-- half a unit off.
time-WithinHalf :
    (t : Time)
    → IsWithinHalf 1_000_000_000 t.tp (Time.to_seconds t RoundType.nearest)
      × IsWithinHalf 1_000_000 t.tp (Time.to_milliseconds t RoundType.nearest)
      × IsWithinHalf 1_000 t.tp (Time.to_microseconds t RoundType.nearest)
unfolding Time.to_seconds Time.to_milliseconds Time.to_microseconds
time-WithinHalf t = (
  within_half 1_000_000_000 t.tp (omega arith),
  within_half 1_000_000 t.tp (omega arith),
  within_half 1_000 t.tp (omega arith),
)

-- With FLOOR, to_seconds, to_milliseconds and to_microseconds of a time that is not before the epoch
-- give the greatest count of units that is not above it.
pub time-Floor :
    (t : Time)
    → neg_part t.tp ≡ 0
    → IsFloor 1_000_000_000 t.tp (Time.to_seconds t RoundType.floor)
      × IsFloor 1_000_000 t.tp (Time.to_milliseconds t RoundType.floor)
      × IsFloor 1_000 t.tp (Time.to_microseconds t RoundType.floor)
unfolding Time.to_seconds Time.to_milliseconds Time.to_microseconds
time-Floor t h = (
  duration_cast-IsFloor 1_000_000_000 t.tp (omega arith) h,
  duration_cast-IsFloor 1_000_000 t.tp (omega arith) h,
  duration_cast-IsFloor 1_000 t.tp (omega arith) h,
)

-- With CEIL, to_seconds, to_milliseconds and to_microseconds of a duration of either sign give the
-- least count of units that is not below it.
pub duration-Ceil :
    (x : Duration)
    → IsCeil 1_000_000_000 x.d (Duration.to_seconds x RoundType.ceil)
      × IsCeil 1_000_000 x.d (Duration.to_milliseconds x RoundType.ceil)
      × IsCeil 1_000 x.d (Duration.to_microseconds x RoundType.ceil)
unfolding Duration.to_seconds Duration.to_milliseconds Duration.to_microseconds
duration-Ceil x = (
  ceil-IsCeil 1_000_000_000 x.d (omega arith),
  ceil-IsCeil 1_000_000 x.d (omega arith),
  ceil-IsCeil 1_000 x.d (omega arith),
)

-- With NEAREST, to_seconds, to_milliseconds and to_microseconds of a duration of either sign are at
-- most half a unit off.
pub duration-WithinHalf :
    (x : Duration)
    → IsWithinHalf 1_000_000_000 x.d (Duration.to_seconds x RoundType.nearest)
      × IsWithinHalf 1_000_000 x.d (Duration.to_milliseconds x RoundType.nearest)
      × IsWithinHalf 1_000 x.d (Duration.to_microseconds x RoundType.nearest)
unfolding Duration.to_seconds Duration.to_milliseconds Duration.to_microseconds
duration-WithinHalf x = (
  within_half 1_000_000_000 x.d (omega arith),
  within_half 1_000_000 x.d (omega arith),
  within_half 1_000 x.d (omega arith),
)
