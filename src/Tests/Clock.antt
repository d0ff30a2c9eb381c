-- ===== src/Tests/Clock.antt =====
-- Rate over a clock that counts the calls, and the text of a time.
use rob320_p.Base.{
  ℕ, suc, ◌+◌, ◌*◌, ◌≡◌, ◌≤◌, ltb, if◌then◌else◌, some, none, true, false, refl, arith,
}
use rob320_p.Base.Int.{ℤ, pos, pos_part, mul_ℤ, ltb_ℤ}
use rob320_p.Util.Time.{Time}
use rob320_p.Util.Doubles.{Doubles}
use rob320_p.Util.Rate.{Clock, Rate, sleep, of_frequency}
use rob320_p.Util.Rate.Pace.{Keeps, rounds, Started, rounds-Started, sleep_too_slow}

unfoldable wake : ℕ → ℕ → ℕ
wake due s = if ltb s due then due else suc s

-- Every look takes a nanosecond.
abbrev counter : Clock
counter = record {
  State = ℕ;
  now = λ s. (record { tp = pos s }, suc s);
  sleep_until = λ t s. wake (pos_part t.tp) s;
}

wake_lem :
    (t : Time) (due bound s : ℕ)
    → t.tp ≡ pos due
    → due ≤ bound
    → s ≤ bound
    → (due ≤ wake (pos_part t.tp) s) × (wake (pos_part t.tp) s ≤ bound + 1)
unfolding wake
wake_lem t due bound s e h k = (ground (arith, e, h, k), ground (arith, e, h, k))

abbrev counter-Keeps : Keeps counter 1
counter-Keeps = record {
  time = λ s. s;
  now-time = λ s. refl;
  now_after = λ s. (omega arith, omega arith);
  sleep_until_lem = λ t due bound s e h k. wake_lem t due bound s e h k;
}

abbrev every_five : Rate
every_five = record { period = record { d = pos 5 }; start = record { tp = pos 10 } }

rounds-Started_example :
    (t' : ℕ) × (r' : Rate) × (s' : ℕ) × (rounds counter (λ s. s + 2) 3 every_five 11
      ≡ some (r', s'))
    × Started counter 1 counter-Keeps t' 5 r'
    × (10 + 3 * 5 ≤ t')
    × (t' ≤ 10 + 3 * (5 + 2 * 1))
rounds-Started_example =
    rounds-Started counter 1 counter-Keeps (λ s. s + 2) 2 (λ s. (omega arith, omega arith)) 3
      every_five 10 5 11 (omega arith) (omega arith) (refl, refl) (omega arith) (omega arith)

-- Doubles that are integers.
abbrev whole : Doubles
whole = record {
  Double = ℤ;
  of_int = λ x. x;
  nano = pos 0;
  times = mul_ℤ;
  over = λ x y. pos 0;
  less_eq = λ x y. if ltb_ℤ y x then false else true;
  llround = λ x. x;
  trunc = λ x. x;
}

sleep_too_slow_example :
    sleep counter (of_frequency counter whole (pos 0) 6).0 (of_frequency counter whole (pos 0) 6).1
    ≡ none
sleep_too_slow_example = sleep_too_slow counter whole (pos 0) 5 6 refl refl
