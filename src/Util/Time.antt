-- ===== src/Util/Time.antt =====
-- class Time of src/rix/util/time.cpp: a time point, as an int64_t count of nanoseconds since the epoch.
-- A Duration enters by its count.
use rob320_p.Base.{ℕ, Bool, false, not, Option, some, ◌>>=◌, if◌then◌else◌}
use rob320_p.Base.Int.{ℤ, ◌+ℤ◌, ◌-ℤ◌, ◌*ℤ◌, ltb_ℤ, div_ℤ, mod_ℤ, signed32, to_i32, checked64}
use rob320_p.Util.Chrono
use rob320_p.Messages.Time.{Time as TimeMsg}

pub record Time : Type 0 where
  pub tp : ℤ

pub data RoundType : Type 0 where
  floor ceil nearest : RoundType

-- Time(int32_t second, int32_t nanosecond)
unfoldable pub of_parts : ℕ → ℕ → Time
of_parts second nanosecond = record { tp = signed32 second *ℤ 1_000_000_000 +ℤ signed32 nanosecond }

unfoldable pub of_msg : TimeMsg → Time
unfolding of_parts
of_msg msg = of_parts msg.sec msg.nsec

unfoldable pub to_msg : Time → TimeMsg
to_msg t = record {
  sec = to_i32 (div_ℤ t.tp 1_000_000_000);
  nsec = to_i32 (mod_ℤ t.tp 1_000_000_000);
}

unfoldable pub plus : Time → ℤ → Option Time
plus t d = checked64 (t.tp +ℤ d) >>= λ tp. some (record { tp = tp })

unfoldable pub minus : Time → ℤ → Option Time
minus t d = checked64 (t.tp -ℤ d) >>= λ tp. some (record { tp = tp })

-- operator-(const Time &): the count of the Duration.
unfoldable pub since : Time → Time → Option ℤ
since t u = checked64 (t.tp -ℤ u.tp)

unfoldable pub less : Time → Time → Bool
less a b = ltb_ℤ a.tp b.tp

unfoldable pub less_eq : Time → Time → Bool
less_eq a b = not (ltb_ℤ b.tp a.tp)

unfoldable pub greater : Time → Time → Bool
greater a b = ltb_ℤ b.tp a.tp

unfoldable pub greater_eq : Time → Time → Bool
greater_eq a b = not (ltb_ℤ a.tp b.tp)

unfoldable pub equal : Time → Time → Bool
equal a b = if ltb_ℤ a.tp b.tp then false else not (ltb_ℤ b.tp a.tp)

unfoldable pub not_equal : Time → Time → Bool
unfolding equal
not_equal a b = not (equal a b)

unfoldable pub to_seconds : Time → RoundType → ℤ
to_seconds x RoundType.floor = Chrono.duration_cast 1_000_000_000 x.tp
to_seconds x RoundType.ceil = Chrono.ceil 1_000_000_000 x.tp
to_seconds x RoundType.nearest = Chrono.round 1_000_000_000 x.tp

unfoldable pub to_milliseconds : Time → RoundType → ℤ
to_milliseconds x RoundType.floor = Chrono.duration_cast 1_000_000 x.tp
to_milliseconds x RoundType.ceil = Chrono.ceil 1_000_000 x.tp
to_milliseconds x RoundType.nearest = Chrono.round 1_000_000 x.tp

unfoldable pub to_microseconds : Time → RoundType → ℤ
to_microseconds x RoundType.floor = Chrono.duration_cast 1_000 x.tp
to_microseconds x RoundType.ceil = Chrono.ceil 1_000 x.tp
to_microseconds x RoundType.nearest = Chrono.round 1_000 x.tp

unfoldable pub to_nanoseconds : Time → ℤ
to_nanoseconds t = t.tp
