-- ===== src/Util/TimeText.antt =====
-- Time::to_string of src/rix/util/time.cpp.
use rob320_p.Base.{ℕ, zero, suc, ◌≡◌, [], ◌∷◌, ◌++◌, Bool, true, false, some, refl, arith, ap}
use rob320_p.Base.Int.{ℤ, pos, negsuc, mod_ℤ}
use rob320_p.Util.ArgumentValues.{Str, stoi}
use rob320_p.Util.ArgumentValues.Numerals.{IsInt, numeral, stoi-numeral}
use rob320_p.Util.Time
use rob320_p.Util.Time.{Time, RoundType}

-- std::put_time of a count of seconds, in local time or not: the day and the time of the day, and the zone.
pub record Calendar : Type 0 where
  pub put_time : Bool → ℤ → Str
  pub put_zone : ℤ → Str

abbrev pub million : ℕ
million = 1_000_000

-- The text of the microseconds of a second.
unfoldable pub fraction : ℤ → Str
unfolding numeral
fraction (pos zero) = b'.' ∷ b'0' ∷ b'0' ∷ b'0' ∷ b'0' ∷ b'0' ∷ b'0' ∷ []
fraction us = b'.' ∷ numeral us []

unfoldable pub zone : Calendar → Bool → ℤ → Str
zone c true time = b' ' ∷ c.put_zone time
zone c false time = b' ' ∷ b'G' ∷ b'M' ∷ b'T' ∷ []

unfoldable pub to_string : Calendar → Bool → Time → Str
unfolding fraction zone Time.to_seconds Time.to_microseconds
to_string c local_time t =
    let time = Time.to_seconds t RoundType.floor in
    c.put_time local_time time
    ++ (fraction (mod_ℤ (Time.to_microseconds t RoundType.floor) million) ++ zone c local_time time)

mod-IsInt : (x : ℤ) → IsInt (mod_ℤ x million)
unfolding mod_ℤ
mod-IsInt (pos n) = omega arith
mod-IsInt (negsuc n) = ground arith

fraction-stoi :
    (us : ℤ) → IsInt us → (micros : Str) × (fraction us ≡ b'.' ∷ micros) × (stoi micros ≡ some us)
unfolding fraction stoi
fraction-stoi (pos zero) h = (_, refl, refl)
fraction-stoi (pos (suc n)) h =
    (numeral (pos (suc n)) [], refl, stoi-numeral (pos (suc n)) [] h refl)
fraction-stoi (negsuc n) h = (numeral (negsuc n) [], refl, stoi-numeral (negsuc n) [] h refl)

-- Between the seconds and the zone, to_string of any time has a point and a text that stoi reads as the
-- microseconds that are left of the last second, with their sign.
stoi-to_string :
    (c : Calendar) (local_time : Bool) (t : Time)
    → (micros : Str) × (to_string c local_time t
        ≡ c.put_time local_time (Time.to_seconds t RoundType.floor)
          ++ ((b'.' ∷ micros) ++ zone c local_time (Time.to_seconds t RoundType.floor)))
      × (stoi micros ≡ some (mod_ℤ (Time.to_microseconds t RoundType.floor) million))
unfolding to_string
stoi-to_string c local_time t =
    let time : ℤ = Time.to_seconds t RoundType.floor in
    let us : ℤ = mod_ℤ (Time.to_microseconds t RoundType.floor) million in
    let (micros, e, f) = fraction-stoi us (mod-IsInt (Time.to_microseconds t RoundType.floor)) in
    (micros, ap (λ x. c.put_time local_time time ++ (x ++ zone c local_time time)) e, f)
