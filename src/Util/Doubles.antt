-- ===== src/Util/Doubles.antt =====
-- The arithmetic of double that src/rix/util/time.cpp uses, and its constructors and factors of type double.
use rob320_p.Base.{Bool}
use rob320_p.Base.Int.{ℤ, pos}
use rob320_p.Util.Time.{Time}
use rob320_p.Util.Duration.{Duration}

-- `of_int` converts an int64_t, `trunc` converts to one; `nano` is 1e-9.
pub record Doubles : Type 1 where
  pub Double : Type 0
  pub of_int : ℤ → Double
  pub nano : Double
  pub times : Double → Double → Double
  pub over : Double → Double → Double
  pub less_eq : Double → Double → Bool
  pub llround : Double → ℤ
  pub trunc : Double → ℤ

module _ (f : Doubles) where
  open f use {Double}

  abbrev pub billion : Double
  billion = f.of_int (pos 1_000_000_000)

  -- Time(double seconds)
  unfoldable pub time_of_seconds : Double → Time
  time_of_seconds seconds = record { tp = f.llround (f.times seconds billion) }

  -- Duration(double seconds)
  unfoldable pub duration_of_seconds : Double → Duration
  duration_of_seconds seconds = record { d = f.llround (f.times seconds billion) }

  -- operator*(double), operator*=(double)
  unfoldable pub scale : Duration → Double → Duration
  scale x factor = record { d = f.trunc (f.times (f.of_int x.d) factor) }

  -- operator/(double), operator/=(double)
  unfoldable pub divide : Duration → Double → Duration
  divide x factor = record { d = f.trunc (f.over (f.of_int x.d) factor) }
