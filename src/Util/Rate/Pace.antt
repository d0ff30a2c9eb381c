-- ===== src/Util/Rate/Pace.antt =====
-- How fast a loop with a Rate goes (Rate::sleep of src/rix/util/time.cpp).
use rob320_p.Base.{
  ℕ, zero, suc, ◌+◌, ◌*◌, ◌^◌, ◌≡◌, ◌≤◌, ◌<◌, Bool, true, false, Option, none, some, ◌>>=◌, refl,
  arith, Bool-cases, inl, inr, ap, ◌∙◌,
}
use rob320_p.Base.Int.{pos, pos_part, neg_part, ◌+ℤ◌, +ℤ_parts, checked64, eq_of_parts}
use rob320_p.Util.Time
use rob320_p.Util.Time.{Time}
use rob320_p.Util.Doubles.{Doubles}
use rob320_p.Util.Sums.{checked64-some}
use rob320_p.Util.Rate.{Clock, Rate, sleep, of_frequency, max_count, min_frequency}

-- The clock shows a time after the epoch that no call sets back: reading it takes `slack` at most, and
-- sleep_until wakes neither before its time nor more than `slack` after it and the call.
pub record Keeps (c : Clock) (slack : ℕ) : Type 0 where
  pub time : c.State → ℕ
  pub now-time : (s : c.State) → (c.now s).0.tp ≡ pos (time s)
  pub now_after : (s : c.State) → (time s ≤ time (c.now s).1) × (time (c.now s).1 ≤ time s + slack)
  pub sleep_until_lem :
      (t : Time) (due bound : ℕ) (s : c.State)
      → t.tp ≡ pos due
      → due ≤ bound
      → time s ≤ bound
      → (due ≤ time (c.sleep_until t s)) × (time (c.sleep_until t s) ≤ bound + slack)

not_early : (x y : Time) (a b : ℕ) → x.tp ≡ pos a → y.tp ≡ pos b → Time.greater x y ≡ false → a ≤ b
unfolding Time.greater
not_early x y a b e f h = ground (arith, e, f, h)

overflow : (x : Time) (t : ℕ) → x.tp ≡ pos (suc t) → Time.plus x max_count ≡ none
unfolding Time.plus ◌+ℤ◌ checked64
overflow x t e = rw (e, checked64) (ground arith)

not_late : (x y : Time) (a b : ℕ) → x.tp ≡ pos a → y.tp ≡ pos b → Time.greater x y ≡ true → b < a
unfolding Time.greater
not_late x y a b e f h = ground (arith, e, f, h)

more_than : (n a b t p : ℕ) → a + p ≤ b → b + n * p ≤ t → a + suc n * p ≤ t
more_than n a b t p h k = grind arith

less_than : (n a b t p : ℕ) → b ≤ a + p → t ≤ b + n * p → t ≤ a + suc n * p
less_than n a b t p h k = grind arith

less_room : (n a b p : ℕ) → b ≤ a + p → a + suc n * p < 2 ^ 63 → b + n * p < 2 ^ 63
less_room n a b p h k = grind arith

first_room : (n a p q : ℕ) → q ≤ p → a + suc n * p < 2 ^ 63 → a + q < 2 ^ 63
first_room n a p q h k = grind arith

module _ (c : Clock) where
  open c use {State}

  -- The loop `while (…) { body; rate.sleep(); }`, `n` times.
  unfoldable pub rounds : (State → State) → ℕ → Rate → State → Option (Rate × State)
  unfolding sleep
  rounds body zero r s = some (r, s)
  rounds body (suc n) r s = sleep c r (body s) >>= λ a. rounds body n a.1 a.2

  due_lem :
      (t p : ℕ) (x : Time)
      → x.tp ≡ pos t
      → t + p < 2 ^ 63
      → Time.plus x (pos p) ≡ some (record { tp = pos (t + p) })
  unfolding Time.plus
  due_lem t p x e l =
      let sum : x.tp +ℤ pos p ≡ pos (t + p) =
        eq_of_parts _ _ (omega (arith, +ℤ_parts x.tp (pos p), ap pos_part e, ap neg_part e)) in
      rw (sum, checked64-some (pos (t + p)) (l, omega arith)) refl

  module _ (slack : ℕ) (keeps : Keeps c slack) where
    open keeps use {time}

    -- The rate was started at `t`, and its period is `p`.
    abbrev pub Started : ℕ → ℕ → Rate → Type 0
    Started t p r = (r.start.tp ≡ pos t) × (r.period.d ≡ pos p)

    -- A sleep returns, a period after the start at least.
    sleep-Started :
        (r : Rate) (t p : ℕ) (s : State)
        → t + p < 2 ^ 63
        → Started t p r
        → t ≤ time s
        → time s ≤ t + p + slack
        → (woken : Bool) × (t' : ℕ) × (r' : Rate) × (s' : State) × (sleep c r s
            ≡ some (woken, r', s'))
          × Started t' p r'
          × (t + p ≤ t')
          × (t' ≤ t + (p + 2 * slack))
          × (t' ≤ time s')
          × (time s' ≤ t' + slack)
    unfolding sleep
    sleep-Started r t p s l (e, f) early late =
        let due : Time = record { tp = pos (t + p) } in
        let s' : State = (c.now s).1 in
        let (after, near) = keeps.now_after s in
        let sum : Time.plus r.start r.period.d ≡ some due =
          ap (Time.plus r.start) f ∙ due_lem t p r.start e l in
        elim (Bool-cases (Time.greater due (c.now s).0)) [
          | inl sleeps ↦
              let w : State = c.sleep_until due s' in
              let before =
                not_late due (c.now s).0 (t + p) (time s) refl (keeps.now-time s) sleeps in
              let (awake, soon) =
                keeps.sleep_until_lem due (t + p) (t + p + slack) s' refl (omega arith)
                  (omega (arith, near, before)) in
              let (after', near') = keeps.now_after w in
              (
                true,
                time w,
                record r { start = (c.now w).0 },
                (c.now w).1,
                rw (sleep, sum, sleeps) refl,
                (keeps.now-time w, f),
                awake,
                omega (arith, soon),
                after',
                near',
              )
          | inr goes_on ↦ (
            false,
            time s,
            record r { start = (c.now s).0 },
            s',
            rw (sleep, sum, goes_on) refl,
            (keeps.now-time s, f),
            not_early due (c.now s).0 (t + p) (time s) refl (keeps.now-time s) goes_on,
            omega (arith, late),
            after,
            near,
          )
        ]

    module _ (body : State → State) (work : ℕ)
        (works : (s : State) → (time s ≤ time (body s)) × (time (body s) ≤ time s + work)) where
      -- A loop that ends each round with Rate::sleep keeps its pace. Let the clock show times after the
      -- epoch, let no call set it back, let a look at it take slack at most, and let sleep_until wake
      -- neither before its time nor more than slack after it and its call; let the body of the loop
      -- take no more than a period. From at most slack after the start of the Rate, if n periods and 2
      -- n times slack after the start do not overflow the clock, n rounds return: the new start is n
      -- periods after the old one at least, and n periods and 2 n times slack at most, and the period
      -- is the same.
      pub rounds-Started :
          (n : ℕ) (r : Rate) (t p : ℕ) (s : State)
          → t + n * (p + 2 * slack) < 2 ^ 63
          → work ≤ p
          → Started t p r
          → t ≤ time s
          → time s ≤ t + slack
          → (t' : ℕ) × (r' : Rate) × (s' : State) × (rounds body n r s ≡ some (r', s'))
            × Started t' p r'
            × (t + n * p ≤ t')
            × (t' ≤ t + n * (p + 2 * slack))
      unfolding rounds
      rounds-Started zero r t p s l fits h early late = (t, r, s, refl, h, omega arith, omega arith)
      rounds-Started (suc n) r t p s l fits h early late =
          let (longer, quick) = works s in
          let (woken, t1, r1, s1, e, h1, least, most, early1, late1) =
            sleep-Started r t p (body s) (first_room n t (p + 2 * slack) p (omega arith) l) h
              (omega (arith, early, longer)) (omega (arith, late, quick, fits)) in
          let (t2, r2, s2, g, h2, least2, most2) =
            rounds-Started n r1 t1 p s1 (less_room n t t1 (p + 2 * slack) most l) fits h1 early1
              late1 in
          (
            t2,
            r2,
            s2,
            rw (rounds, e) g,
            h2,
            more_than n t t1 t2 p least least2,
            less_than n t t1 t2 (p + 2 * slack) most most2,
          )

  -- If the clock shows a time after the epoch, sleep of a Rate that was made just now of a frequency
  -- that is too low, as 0 is, overflows the count of its start and its period.
  pub sleep_too_slow :
      (f : Doubles) (frequency : f.Double) (t : ℕ) (s : State)
      → f.less_eq frequency (min_frequency c f) ≡ true
      → (c.now s).0.tp ≡ pos (suc t)
      → sleep c (of_frequency c f frequency s).0 (of_frequency c f frequency s).1 ≡ none
  unfolding sleep of_frequency Time.plus
  sleep_too_slow f frequency t s low shown = rw (low, sleep, overflow (c.now s).0 t shown) refl
