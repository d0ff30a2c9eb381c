-- ===== src/Tests/Util.antt =====
-- The conversions and sums of src/rix/util/time.cpp at single times.
use rob320_p.Base.{◌≡◌, arith, refl, some}
use rob320_p.Base.Int.{pos, negsuc, ◌+ℤ◌, checked64, div_ℤ}
use rob320_p.Messages.Time.{Time as TimeMsg}
use rob320_p.Util.Time
use rob320_p.Util.Time.{Time, RoundType}
use rob320_p.Util.Chrono.{IsCeil, IsFloor}
use rob320_p.Util.Stamps.{of_msg-to_msg}
use rob320_p.Util.Rounding.{time-Ceil, time-Floor}

abbrev before : Time
before = record { tp = negsuc 1_500_000_000 }

abbrev after : Time
after = record { tp = pos 2_700_000_001 }

abbrev stamp : TimeMsg
stamp = record { sec = 5; nsec = 17 }

of_msg-to_msg_example : Time.of_msg (Time.to_msg before) ≡ before
unfolding div_ℤ
of_msg-to_msg_example = of_msg-to_msg before (omega arith, omega arith)

time-Ceil_example :
    IsCeil 1_000_000_000 before.tp (Time.to_seconds before RoundType.ceil)
    × IsCeil 1_000_000 before.tp (Time.to_milliseconds before RoundType.ceil)
    × IsCeil 1_000 before.tp (Time.to_microseconds before RoundType.ceil)
time-Ceil_example = time-Ceil before

time-Floor_example :
    IsFloor 1_000_000_000 after.tp (Time.to_seconds after RoundType.floor)
    × IsFloor 1_000_000 after.tp (Time.to_milliseconds after RoundType.floor)
    × IsFloor 1_000 after.tp (Time.to_microseconds after RoundType.floor)
time-Floor_example = time-Floor after refl

sum_known : Time.plus after (pos 3) ≡ some (record { tp = pos 2_700_000_004 })
unfolding Time.plus ◌+ℤ◌ checked64
sum_known = refl
