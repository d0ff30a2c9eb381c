-- ===== src/Base/Bytes.antt =====
-- The bytes of a number in memory: `w` of them, the least significant first.
use Prim.Native.Nat.{ℕ, zero, suc, ◌+◌, ◌*◌, ◌/◌, ◌%◌, ◌^◌, ◌<◌}
use mathlib.Core.Path.{◌≡◌, refl, ap}
use mathlib.Core.List.{List, [], ◌∷◌}
use native.Mathlib.Omega.{arith}
use native.Mathlib.Nat.{pow-suc}
use rob320_p.Base.Lists.{length, All}

abbrev pub IsByte : ℕ → Type 0
IsByte b = b < 256

-- The object representation of a `w`-byte number on a little-endian machine.
unfoldable pub to_bytes : ℕ → ℕ → List ℕ
to_bytes zero n = []
to_bytes (suc w) n = (n % 256) ∷ to_bytes w (n / 256)

unfoldable pub of_bytes : List ℕ → ℕ
of_bytes [] = 0
of_bytes (b ∷ bs) = b + 256 * of_bytes bs

pub length-to_bytes : (w n : ℕ) → length (to_bytes w n) ≡ w
unfolding to_bytes
length-to_bytes zero n = refl
length-to_bytes (suc w) n = ap suc (length-to_bytes w (n / 256))

pub to_bytes-IsByte : (w n : ℕ) → All IsByte (to_bytes w n)
unfolding to_bytes
to_bytes-IsByte zero n = tt
to_bytes-IsByte (suc w) n = (omega arith, to_bytes-IsByte w (n / 256))

pub of_bytes-to_bytes : (w n : ℕ) → n < 256 ^ w → of_bytes (to_bytes w n) ≡ n
unfolding to_bytes of_bytes
of_bytes-to_bytes zero n h = omega arith
of_bytes-to_bytes (suc w) n h =
    omega (arith, of_bytes-to_bytes w (n / 256) (omega (arith, pow-suc 256 w)))

pub to_bytes-of_bytes : (bs : List ℕ) → All IsByte bs → to_bytes (length bs) (of_bytes bs) ≡ bs
unfolding to_bytes of_bytes
to_bytes-of_bytes [] h = refl
to_bytes-of_bytes (b ∷ bs) h =
    let low : (b + 256 * of_bytes bs) % 256 ≡ b = omega (arith, h.0) in
    let high : (b + 256 * of_bytes bs) / 256 ≡ of_bytes bs = omega (arith, h.0) in
    rw (low, high) (ap (◌∷◌ b) (to_bytes-of_bytes bs h.1))

pub of_bytes-lt : (bs : List ℕ) → All IsByte bs → of_bytes bs < 256 ^ length bs
unfolding of_bytes
of_bytes-lt [] h = omega arith
of_bytes-lt (b ∷ bs) h = omega (arith, h.0, pow-suc 256 (length bs), of_bytes-lt bs h.1)
