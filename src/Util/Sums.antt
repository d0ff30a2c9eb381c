-- ===== src/Util/Sums.antt =====
-- Sums and orders of time points and durations (src/rix/util/time.cpp).
use rob320_p.Base.{◌≡◌, true, some, arith, ◌↔◌, ap, ltb→lt, lt→ltb}
use rob320_p.Base.Int.{ℤ, ◌+ℤ◌, ◌-ℤ◌, ◌≤ℤ◌, ◌<ℤ◌, +ℤ_parts, -ℤ_parts, eq_of_parts, IsI64, checked64}
use rob320_p.Util.Time.{Time, plus, minus, since, less, less_eq, equal}

pub checked64-some : (a : ℤ) → IsI64 a → checked64 a ≡ some a
unfolding checked64
checked64-some a h = ground arith

checked64-IsI64 : (a b : ℤ) → checked64 a ≡ some b → IsI64 a × (a ≡ b)
unfolding checked64
checked64-IsI64 a b h = ground arith

plus_cases : (t u : Time) (d : ℤ) → plus t d ≡ some u → u.tp ≡ t.tp +ℤ d
unfolding plus checked64
plus_cases t u d h = ground arith

plus_back :
    (t u : Time) (d : ℤ)
    → IsI64 t.tp
    → IsI64 d
    → u.tp ≡ t.tp +ℤ d
    → (minus u d ≡ some t) × (since u t ≡ some d)
unfolding minus since
plus_back t u d ht hd e =
    let back : u.tp -ℤ d ≡ t.tp =
      rw e (eq_of_parts _ _ (omega (arith, -ℤ_parts (t.tp +ℤ d) d, +ℤ_parts t.tp d))) in
    let between : u.tp -ℤ t.tp ≡ d =
      rw e (eq_of_parts _ _ (omega (arith, -ℤ_parts (t.tp +ℤ d) t.tp, +ℤ_parts t.tp d))) in
    (rw (back, checked64-some t.tp ht), rw (between, checked64-some d hd))

-- If the count of a time and a duration are in the range of an int64_t and their sum does not overflow
-- it, subtracting the duration gives the time back, and the difference of the times is the duration.
minus-plus :
    (t u : Time) (d : ℤ)
    → IsI64 t.tp
    → IsI64 d
    → plus t d ≡ some u
    → (minus u d ≡ some t) × (since u t ≡ some d)
minus-plus t u d ht hd h = plus_back t u d ht hd (plus_cases t u d h)

equal_self : (t u : Time) → t.tp ≡ u.tp → equal t u ≡ true
unfolding equal
equal_self t u e = rw e (ground arith)

-- The comparisons < and <= of times are the orders of their counts, and == is equality.
less_iff :
    (t u : Time)
    → ((less t u ≡ true) ↔ (t.tp <ℤ u.tp))
      × ((less_eq t u ≡ true) ↔ (t.tp ≤ℤ u.tp))
      × ((equal t u ≡ true) ↔ (t ≡ u))
unfolding less less_eq equal
less_iff t u = (
  (λ h. ltb→lt _ _ h, λ h. lt→ltb _ _ h),
  (λ h. ground arith, λ h. ground arith),
  (
    λ h. ap (λ a. record { tp = a }) (eq_of_parts _ _ (ground arith)),
    λ e. equal_self t u (ap (λ (x : Time). x.tp) e),
  ),
)
