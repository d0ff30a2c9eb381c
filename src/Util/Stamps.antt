-- ===== src/Util/Stamps.antt =====
-- Time and Duration of src/rix/util/time.cpp to messages and back.
use rob320_p.Base.{
  ℕ, zero, suc, ◌+◌, ◌-◌, ◌*◌, ◌/◌, ◌%◌, ◌^◌, ◌≡◌, ◌≤◌, ◌<◌, ◌⊎◌, inl, inr, refl, ap, arith, lt→ltb,
  le→ltb,
}
use rob320_p.Base.Int.{
  ℤ, pos, negsuc, pos_part, neg_part, ◌+ℤ◌, ◌*ℤ◌, div_ℤ, mod_ℤ, signed32, to_i32, sub_ℕ, sub_parts,
  +ℤ_parts, *ℤ_parts, eq_of_parts,
}
use rob320_p.Messages.Time as MessagesTime
use rob320_p.Messages.Time.{Time as TimeMsg}
use rob320_p.Util.Time
use rob320_p.Util.Time.{Time}
use rob320_p.Util.Duration
use rob320_p.Util.Duration.{Duration}

abbrev second : ℕ
second = 1_000_000_000

-- The range of an int32_t.
abbrev pub IsI32 : ℤ → Type 0
IsI32 a = (pos_part a < 2 ^ 31) × (neg_part a ≤ 2 ^ 31)

signed32-to_i32 : (a : ℤ) → IsI32 a → signed32 (to_i32 a) ≡ a
signed32-to_i32 (pos n) h =
    let e : n % 2 ^ 32 ≡ n = omega arith in rw (e, lt→ltb n (2 ^ 31) (omega arith))
signed32-to_i32 (negsuc n) h =
    let e : n % 2 ^ 32 ≡ n = omega arith in
    rw (e, le→ltb (2 ^ 32 - 1 - n) (2 ^ 31) (omega arith)) (ap negsuc (omega arith))

-- Quotient and remainder make up the number.
div_ℤ-mod_ℤ : (a : ℤ) → div_ℤ a second *ℤ second +ℤ mod_ℤ a second ≡ a
unfolding div_ℤ mod_ℤ
div_ℤ-mod_ℤ (pos n) = eq_of_parts _ _ (
    omega (
      arith,
      +ℤ_parts (pos (n / second) *ℤ second) (pos (n % second)),
      *ℤ_parts (pos (n / second)) second,
    ))
div_ℤ-mod_ℤ (negsuc n) = eq_of_parts _ _ (
    omega (
      arith,
      +ℤ_parts (sub_ℕ 0 (suc n / second) *ℤ second) (sub_ℕ 0 (suc n % second)),
      *ℤ_parts (sub_ℕ 0 (suc n / second)) second,
      sub_parts 0 (suc n / second),
      sub_parts 0 (suc n % second),
    ))

-- The nanoseconds of less than a second fit an int32_t.
mod_ℤ-IsI32 : (a : ℤ) → IsI32 (mod_ℤ a second)
unfolding mod_ℤ
mod_ℤ-IsI32 (pos n) = omega arith
mod_ℤ-IsI32 (negsuc n) = ground arith

parts_back :
    (a : ℤ)
    → IsI32 (div_ℤ a second)
    → signed32 (to_i32 (div_ℤ a second)) *ℤ second +ℤ signed32 (to_i32 (mod_ℤ a second)) ≡ a
parts_back a h =
    rw (signed32-to_i32 (div_ℤ a second) h, signed32-to_i32 (mod_ℤ a second) (mod_ℤ-IsI32 a))
      (div_ℤ-mod_ℤ a)

-- A time point whose whole seconds fit an int32_t comes back from its message.
pub of_msg-to_msg : (t : Time) → IsI32 (div_ℤ t.tp second) → Time.of_msg (Time.to_msg t) ≡ t
unfolding Time.of_msg Time.to_msg
of_msg-to_msg t h = ap (λ a. record { tp = a }) (parts_back t.tp h)

-- A duration whose whole seconds fit an int32_t comes back from its message.
pub of_msg-to_msg_duration :
    (x : Duration) → IsI32 (div_ℤ x.d second) → Duration.of_msg (Duration.to_msg x) ≡ x
unfolding Duration.of_msg Duration.to_msg
of_msg-to_msg_duration x h = ap (λ a. record { d = a }) (parts_back x.d h)

-- Seconds and nanoseconds of one sign, with less than a second of nanoseconds.
abbrev pub IsNormal : ℤ → ℤ → Type 0
IsNormal s n =
    ((neg_part s ≡ 0) × (neg_part n ≡ 0) × (pos_part n < second))
    ⊎ ((pos_part s ≡ 0) × (pos_part n ≡ 0) × (neg_part n < second))

abbrev Splits : ℤ → ℤ → ℤ → Type 0
Splits s n a = (div_ℤ a second ≡ s) × (mod_ℤ a second ≡ n)

positive_parts :
    (s n : ℤ)
    → neg_part s ≡ 0
    → neg_part n ≡ 0
    → pos_part n < second
    → Splits s n (s *ℤ second +ℤ n)
unfolding div_ℤ mod_ℤ
positive_parts s n hs hn l =
    let e : s *ℤ second +ℤ n ≡ pos (pos_part s * second + pos_part n) =
      eq_of_parts _ _ (omega (arith, +ℤ_parts (s *ℤ second) n, *ℤ_parts s second)) in
    rw e (eq_of_parts _ s (omega arith), eq_of_parts _ n (omega arith))

negative_parts :
    (m : ℕ) (s n : ℤ)
    → m ≡ neg_part s * second + neg_part n
    → pos_part s ≡ 0
    → pos_part n ≡ 0
    → neg_part n < second
    → Splits s n (s *ℤ second +ℤ n)
unfolding div_ℤ mod_ℤ
negative_parts zero s n m hs hn l =
    let e : s *ℤ second +ℤ n ≡ pos 0 =
      eq_of_parts _ _ (omega (arith, +ℤ_parts (s *ℤ second) n, *ℤ_parts s second)) in
    rw e (eq_of_parts _ s (omega arith), eq_of_parts _ n (omega arith))
negative_parts (suc k) s n m hs hn l =
    let e : s *ℤ second +ℤ n ≡ negsuc k =
      eq_of_parts _ _ (omega (arith, +ℤ_parts (s *ℤ second) n, *ℤ_parts s second)) in
    rw e (
      eq_of_parts _ s (omega (arith, sub_parts 0 (suc k / second))),
      eq_of_parts _ n (omega (arith, sub_parts 0 (suc k % second))),
    )

normal_parts : (s n : ℤ) → IsNormal s n → Splits s n (s *ℤ second +ℤ n)
normal_parts s n (inl (hs, hn, l)) = positive_parts s n hs hn l
normal_parts s n (inr (hs, hn, l)) = negative_parts _ s n refl hs hn l

to_i32-signed32 : (w : ℕ) → w < 2 ^ 32 → to_i32 (signed32 w) ≡ w
to_i32-signed32 w h = ground arith

-- A message of 32-bit patterns whose signed seconds and nanoseconds have one sign, with less than a
-- second of nanoseconds, comes back from its time point.
to_msg-of_msg :
    (m : TimeMsg)
    → MessagesTime.Fits m
    → IsNormal (signed32 m.sec) (signed32 m.nsec)
    → Time.to_msg (Time.of_msg m) ≡ m
unfolding Time.of_msg Time.to_msg
to_msg-of_msg m h n =
    let (q, r) = normal_parts (signed32 m.sec) (signed32 m.nsec) n in
    rw (q, r, to_i32-signed32 m.sec h.0, to_i32-signed32 m.nsec h.1)
