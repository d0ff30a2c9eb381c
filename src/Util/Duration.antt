-- ===== src/Util/Duration.antt =====
-- class Duration of src/rix/util/time.cpp: a count of nanoseconds in an int64_t. The operations on
-- factors of type double are in Util.Doubles.
use rob320_p.Base.{ℕ, zero, suc, none, Bool, false, not, Option, some, ◌>>=◌, if◌then◌else◌}
use rob320_p.Base.Int.{
  ℤ, pos, negsuc, mul_ℤ, ◌+ℤ◌, ◌-ℤ◌, ◌*ℤ◌, ltb_ℤ, div_ℤ, mod_ℤ, signed32, to_i32, checked64,
}
use rob320_p.Util.Chrono
use rob320_p.Util.Time
use rob320_p.Util.Time.{Time, RoundType}
use rob320_p.Messages.Duration.{Duration as DurationMsg}

pub record Duration : Type 0 where
  pub d : ℤ

-- Duration(int32_t seconds, int32_t nanoseconds)
unfoldable pub of_parts : ℕ → ℕ → Duration
of_parts seconds nanoseconds = record {
  d = signed32 seconds *ℤ 1_000_000_000 +ℤ signed32 nanoseconds;
}

unfoldable pub of_msg : DurationMsg → Duration
unfolding of_parts
of_msg msg = of_parts msg.sec msg.nsec

unfoldable pub to_msg : Duration → DurationMsg
to_msg x = record {
  sec = to_i32 (div_ℤ x.d 1_000_000_000);
  nsec = to_i32 (mod_ℤ x.d 1_000_000_000);
}

unfoldable pub plus : Duration → Duration → Option Duration
plus x y = checked64 (x.d +ℤ y.d) >>= λ d. some (record { d = d })

unfoldable pub minus : Duration → Duration → Option Duration
minus x y = checked64 (x.d -ℤ y.d) >>= λ d. some (record { d = d })

unfoldable pub negate : Duration → Option Duration
negate x = checked64 (pos 0 -ℤ x.d) >>= λ d. some (record { d = d })

-- operator*(int), operator*=(int)
unfoldable pub times : Duration → ℤ → Option Duration
times x factor = checked64 (mul_ℤ x.d factor) >>= λ d. some (record { d = d })

-- The quotient of C++, which a factor 0 does not have.
abbrev pub quotient : ℤ → ℤ → Option ℤ
quotient a (pos zero) = none
quotient a (pos (suc n)) = checked64 (div_ℤ a (suc n))
quotient a (negsuc n) = checked64 (pos 0 -ℤ div_ℤ a (suc n))

-- operator/(int), operator/=(int)
unfoldable pub over : Duration → ℤ → Option Duration
over x factor = quotient x.d factor >>= λ d. some (record { d = d })

-- operator+(const Time &)
unfoldable pub after : Duration → Time → Option Time
unfolding Time.plus
after x t = Time.plus t x.d

unfoldable pub less : Duration → Duration → Bool
less a b = ltb_ℤ a.d b.d

unfoldable pub less_eq : Duration → Duration → Bool
less_eq a b = not (ltb_ℤ b.d a.d)

unfoldable pub greater : Duration → Duration → Bool
greater a b = ltb_ℤ b.d a.d

unfoldable pub greater_eq : Duration → Duration → Bool
greater_eq a b = not (ltb_ℤ a.d b.d)

unfoldable pub equal : Duration → Duration → Bool
equal a b = if ltb_ℤ a.d b.d then false else not (ltb_ℤ b.d a.d)

unfoldable pub not_equal : Duration → Duration → Bool
unfolding equal
not_equal a b = not (equal a b)

unfoldable pub to_seconds : Duration → RoundType → ℤ
to_seconds x RoundType.floor = Chrono.duration_cast 1_000_000_000 x.d
to_seconds x RoundType.ceil = Chrono.ceil 1_000_000_000 x.d
to_seconds x RoundType.nearest = Chrono.round 1_000_000_000 x.d

unfoldable pub to_milliseconds : Duration → RoundType → ℤ
to_milliseconds x RoundType.floor = Chrono.duration_cast 1_000_000 x.d
to_milliseconds x RoundType.ceil = Chrono.ceil 1_000_000 x.d
to_milliseconds x RoundType.nearest = Chrono.round 1_000_000 x.d

unfoldable pub to_microseconds : Duration → RoundType → ℤ
to_microseconds x RoundType.floor = Chrono.duration_cast 1_000 x.d
to_microseconds x RoundType.ceil = Chrono.ceil 1_000 x.d
to_microseconds x RoundType.nearest = Chrono.round 1_000 x.d

unfoldable pub to_nanoseconds : Duration → ℤ
to_nanoseconds x = x.d
