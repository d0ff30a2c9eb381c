-- ===== src/Util/Chrono.antt =====
-- The conversions of std::chrono that src/rix/util/time.cpp calls, from a count of nanoseconds to a
-- coarser unit of `k` nanoseconds, as the standard defines them.
use rob320_p.Base.{
  ℕ, ◌+◌, ◌*◌, ◌/◌, ◌%◌, ◌≡◌, ◌≤◌, ◌<◌, Bool, if◌then◌else◌, ltb, ◌⊎◌, arith, suc, ap, refl, inl,
  inr, Bool-cases, ltb→lt, ltb→le,
}
use rob320_p.Base.Int.{
  ℤ, pos, negsuc, pos_part, neg_part, ◌+ℤ◌, ◌-ℤ◌, ◌*ℤ◌, ltb_ℤ, div_ℤ, sub_parts, +ℤ_parts, -ℤ_parts,
  *ℤ_parts,
}
use native.Mathlib.Nat.{div-add-mod, mod-lt}

-- Towards zero.
unfoldable pub duration_cast : ℕ → ℤ → ℤ
duration_cast k d = div_ℤ d k

unfoldable pub floor : ℕ → ℤ → ℤ
unfolding duration_cast
floor k d = let t = duration_cast k d in if ltb_ℤ d (t *ℤ k) then t -ℤ pos 1 else t

unfoldable pub ceil : ℕ → ℤ → ℤ
unfolding duration_cast
ceil k d = let t = duration_cast k d in if ltb_ℤ (t *ℤ k) d then t +ℤ pos 1 else t

abbrev is_odd : ℤ → Bool
is_odd a = ltb 0 ((pos_part a + neg_part a) % 2)

-- To the nearest, and to the even one of two.
unfoldable pub round : ℕ → ℤ → ℤ
unfolding floor
round k d =
    let t0 = floor k d in
    let t1 = t0 +ℤ pos 1 in
    let diff0 = d -ℤ t0 *ℤ k in
    let diff1 = t1 *ℤ k -ℤ d in
    if ltb_ℤ diff0 diff1 then t0 else if ltb_ℤ diff1 diff0 then t1 else if is_odd t0 then t1 else t0

-- The least multiple of `k` that is not below `d`, and the greatest that is not above it.
abbrev pub IsCeil : ℕ → ℤ → ℤ → Type 0
IsCeil k d c =
    (pos_part d + neg_part c * k ≤ pos_part c * k + neg_part d)
    × (pos_part c * k + neg_part d < pos_part d + neg_part c * k + k)

abbrev pub IsFloor : ℕ → ℤ → ℤ → Type 0
IsFloor k d c =
    (pos_part c * k + neg_part d ≤ pos_part d + neg_part c * k)
    × (pos_part d + neg_part c * k < pos_part c * k + neg_part d + k)

-- The conversion towards zero rounds one way or the other.
duration_cast_lem :
    (k : ℕ) (d : ℤ) → 0 < k → IsFloor k d (duration_cast k d) ⊎ IsCeil k d (duration_cast k d)
unfolding duration_cast div_ℤ
duration_cast_lem k (pos n) h =
    inl (omega (arith, div-add-mod n k, mod-lt n h), omega (arith, div-add-mod n k, mod-lt n h))
duration_cast_lem k (negsuc n) h =
    let scaled = ap (λ (x : ℕ). x * k) (sub_parts 0 (suc n / k)) in
    inr (
      omega (arith, scaled, div-add-mod (suc n) k, mod-lt (suc n) h),
      omega (arith, scaled, div-add-mod (suc n) k, mod-lt (suc n) h),
    )

next_scaled :
    (k : ℕ) (t : ℤ)
    → pos_part (t +ℤ pos 1) * k + neg_part t * k ≡ neg_part (t +ℤ pos 1) * k + pos_part t * k + k
next_scaled k t = omega (arith, ap (λ (x : ℕ). x * k) (+ℤ_parts t (pos 1)))

previous_scaled :
    (k : ℕ) (t : ℤ)
    → pos_part (t -ℤ pos 1) * k + neg_part t * k + k ≡ neg_part (t -ℤ pos 1) * k + pos_part t * k
previous_scaled k t = omega (arith, ap (λ (x : ℕ). x * k) (-ℤ_parts t (pos 1)))

IsCeil-step :
    (k : ℕ) (d t : ℤ)
    → 0 < k
    → IsFloor k d t ⊎ IsCeil k d t
    → IsCeil k d (if ltb_ℤ (t *ℤ k) d then t +ℤ pos 1 else t)
IsCeil-step k d t h c = elim (Bool-cases (ltb_ℤ (t *ℤ k) d)) [
  | inl low ↦ rw low (omega (arith, ltb→lt _ _ low, *ℤ_parts t k, next_scaled k t))
  | inr high ↦ rw high (omega (arith, ltb→le _ _ high, *ℤ_parts t k))
]

IsFloor-step :
    (k : ℕ) (d t : ℤ)
    → 0 < k
    → IsFloor k d t ⊎ IsCeil k d t
    → IsFloor k d (if ltb_ℤ d (t *ℤ k) then t -ℤ pos 1 else t)
IsFloor-step k d t h c = elim (Bool-cases (ltb_ℤ d (t *ℤ k))) [
  | inl high ↦ rw high (omega (arith, ltb→lt _ _ high, *ℤ_parts t k, previous_scaled k t))
  | inr low ↦ rw low (omega (arith, ltb→le _ _ low, *ℤ_parts t k))
]

-- `ceil` and `floor` are right for either sign.
pub ceil-IsCeil : (k : ℕ) (d : ℤ) → 0 < k → IsCeil k d (ceil k d)
unfolding ceil
ceil-IsCeil k d h = IsCeil-step k d (duration_cast k d) h (duration_cast_lem k d h)

pub floor-IsFloor : (k : ℕ) (d : ℤ) → 0 < k → IsFloor k d (floor k d)
unfolding floor
floor-IsFloor k d h = IsFloor-step k d (duration_cast k d) h (duration_cast_lem k d h)

-- Towards zero is down for what is not negative.
pub duration_cast-IsFloor :
    (k : ℕ) (d : ℤ) → 0 < k → neg_part d ≡ 0 → IsFloor k d (duration_cast k d)
unfolding duration_cast div_ℤ
duration_cast-IsFloor k (pos n) h e = omega (arith, div-add-mod n k, mod-lt n h)
duration_cast-IsFloor k (negsuc n) h e = absurd (omega arith)

-- At most half a unit off, and even where it is just half a unit.
abbrev pub IsNearest : ℕ → ℤ → ℤ → Type 0
IsNearest k d c =
    (2 * (pos_part d + neg_part c * k) ≤ 2 * (pos_part c * k + neg_part d) + k)
    × (2 * (pos_part c * k + neg_part d) ≤ 2 * (pos_part d + neg_part c * k) + k)
    × (2 * (pos_part d + neg_part c * k) ≡ 2 * (pos_part c * k + neg_part d) + k
        → (pos_part c + neg_part c) % 2 ≡ 0)
    × (2 * (pos_part c * k + neg_part d) ≡ 2 * (pos_part d + neg_part c * k) + k
        → (pos_part c + neg_part c) % 2 ≡ 0)

round_step :
    (k : ℕ) (d t0 t1 : ℤ)
    → 0 < k
    → IsFloor k d t0
    → t1 ≡ t0 +ℤ pos 1
    → IsNearest k d (
        if ltb_ℤ (d -ℤ t0 *ℤ k) (t1 *ℤ k -ℤ d)
        then t0
        else if ltb_ℤ (t1 *ℤ k -ℤ d) (d -ℤ t0 *ℤ k)
        then t1
        else if is_odd t0
        then t1
        else t0)
round_step k d t0 t1 h f e = elim (Bool-cases (ltb_ℤ (d -ℤ t0 *ℤ k) (t1 *ℤ k -ℤ d))) [
  | inl near0 ↦ rw near0 (omega (arith, ltb→lt _ _ near0, low, high, up))
  | inr far0 ↦ elim (Bool-cases (ltb_ℤ (t1 *ℤ k -ℤ d) (d -ℤ t0 *ℤ k))) [
    | inl near1 ↦ rw (far0, near1) (omega (arith, ltb→lt _ _ near1, low, high, up))
    | inr far1 ↦ elim (Bool-cases (is_odd t0)) [
      | inl odd ↦
          rw (far0, far1, odd)
            (omega (arith, ltb→le _ _ far0, ltb→le _ _ far1, ltb→lt _ _ odd, low, high, up, next))
      | inr even ↦
          rw (far0, far1, even)
            (omega (arith, ltb→le _ _ far0, ltb→le _ _ far1, ltb→le _ _ even, low, high, up))
    ]
  ]
]
  where
    scaled0 : pos_part (t0 *ℤ k) + neg_part t0 * k ≡ neg_part (t0 *ℤ k) + pos_part t0 * k
    scaled0 = *ℤ_parts t0 k

    scaled1 : pos_part (t1 *ℤ k) + neg_part t1 * k ≡ neg_part (t1 *ℤ k) + pos_part t1 * k
    scaled1 = *ℤ_parts t1 k

    low :
        pos_part (d -ℤ t0 *ℤ k) + neg_part d + pos_part t0 * k
        ≡ neg_part (d -ℤ t0 *ℤ k) + pos_part d + neg_part t0 * k
    low = omega (arith, -ℤ_parts d (t0 *ℤ k), scaled0)

    high :
        pos_part (t1 *ℤ k -ℤ d) + neg_part t1 * k + pos_part d
        ≡ neg_part (t1 *ℤ k -ℤ d) + pos_part t1 * k + neg_part d
    high = omega (arith, -ℤ_parts (t1 *ℤ k) d, scaled1)

    next : pos_part t1 + neg_part t0 ≡ neg_part t1 + pos_part t0 + 1
    next = rw e (omega (arith, +ℤ_parts t0 (pos 1)))

    up : pos_part t1 * k + neg_part t0 * k ≡ neg_part t1 * k + pos_part t0 * k + k
    up = omega (arith, ap (λ (x : ℕ). x * k) next)

-- `round` goes to the nearest, for either sign.
pub round-IsNearest : (k : ℕ) (d : ℤ) → 0 < k → IsNearest k d (round k d)
unfolding round
round-IsNearest k d h = round_step k d (floor k d) (floor k d +ℤ pos 1) h (floor-IsFloor k d h) refl
