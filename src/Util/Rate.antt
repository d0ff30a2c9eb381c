-- ===== src/Util/Rate.antt =====
-- The classes Timer and Rate of src/rix/util/time.cpp, with the clock and sleep_until as a parameter.
pub mod Pace
use rob320_p.Base.{
  ℕ, zero, suc, ◌-◌, ◌^◌, Bool, true, false, Option, none, some, ◌>>=◌, ◌==◌, if◌then◌else◌, ◌≡◌,
}
use rob320_p.Base.Int.{ℤ, pos, ◌≤ℤ◌}
use rob320_p.Util.Time
use rob320_p.Util.Time.{Time}
use rob320_p.Util.Duration
use rob320_p.Util.Duration.{Duration}
use rob320_p.Util.Doubles.{Doubles, duration_of_seconds, billion}

-- std::chrono::system_clock and std::this_thread::sleep_until
pub record Clock : Type 1 where
  pub State : Type 0
  pub now : State → Time × State
  pub sleep_until : Time → State → State

pub record Timer : Type 0 where
  pub start_time : Time
  pub end_time : Time

pub record Rate : Type 0 where
  pub period : Duration
  pub start : Time

-- std::chrono::nanoseconds::max()
abbrev pub max_count : ℤ
max_count = pos (2 ^ 63 - 1)

abbrev pub min_period : Duration
min_period = record { d = pos 1 }

abbrev pub max_period : Duration
max_period = record { d = max_count }

-- Timer(), which starts and ends at the epoch.
abbrev pub no_timer : Timer
no_timer = record { start_time = record { tp = pos 0 }; end_time = record { tp = pos 0 } }

-- Timer::get
unfoldable pub elapsed : Timer → Option Duration
unfolding Time.since
elapsed t = Time.since t.end_time t.start_time >>= λ d. some (record { d = d })

unfoldable pub set_period : Duration → Rate → Rate
set_period period r = record r { period = period }

module _ (c : Clock) where
  open c use {State}

  -- Timer::start
  unfoldable pub start_timer : Timer → State → Timer × State
  start_timer t s = let (now, s') = c.now s in (record t { start_time = now }, s')

  -- Timer::stop
  unfoldable pub stop_timer : Timer → State → Timer × State
  stop_timer t s = let (now, s') = c.now s in (record t { end_time = now }, s')

  -- Rate()
  unfoldable pub no_rate : State → Rate × State
  no_rate s = let (now, s') = c.now s in (record { period = record { d = pos 0 }; start = now }, s')

  -- Rate(Duration period)
  unfoldable pub of_period : Duration → State → Rate × State
  unfolding Duration.less_eq
  of_period period s =
      let (now, s') = c.now s in
      (
        record {
          period = if Duration.less_eq period min_period then min_period else period;
          start = now;
        },
        s',
      )

  -- Rate::sleep; `none` is an overflow of `start_ + period_`.
  unfoldable pub sleep : Rate → State → Option (Bool × Rate × State)
  unfolding Time.plus Time.greater
  sleep r s =
      let (now, s') = c.now s in
      Time.plus r.start r.period.d >>= λ due.
      if Time.greater due now
      then (let (now', s'') = c.now (c.sleep_until due s') in
          some (true, record r { start = now' }, s''))
      else some (false, record r { start = now }, s')

  module _ (f : Doubles) where
    open f use {Double}

    abbrev pub min_frequency : Double
    min_frequency = f.over (billion f) (f.of_int max_count)

    abbrev pub period_of : Double → Duration
    period_of frequency = duration_of_seconds f (f.over (f.of_int (pos 1)) frequency)

    -- Rate(double frequency)
    unfoldable pub of_frequency : Double → State → Rate × State
    unfolding duration_of_seconds
    of_frequency frequency s =
        let (now, s') = c.now s in
        (
          record {
            period = if f.less_eq frequency min_frequency then max_period else period_of frequency;
            start = now;
          },
          s',
        )

    unfoldable pub set_frequency : Double → Rate → Rate
    unfolding duration_of_seconds
    set_frequency frequency r =
        if f.less_eq frequency min_frequency
        then record r { period = max_period }
        else record r { period = period_of frequency }

    unfoldable pub frequency : Rate → Double
    unfolding Duration.equal
    frequency r =
        if Duration.equal r.period max_period
        then f.of_int (pos 0)
        else f.over (f.of_int (pos 1)) (f.times (f.of_int r.period.d) f.nano)
