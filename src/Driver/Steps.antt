-- ===== src/Driver/Steps.antt =====
-- The steps of a round of MBotDriver::spin (src/mbot_driver/mbot_driver.cpp), each with what it needs.
use rob320_p.Base.{
  ℕ, zero, suc, ◌≡◌, ◌<◌, ◌^◌, List, [], All, IsByte, length, arith, refl, sym, ap, ◌∙◌, of_bytes,
  of_bytes-lt, take_all, ltb, ltb_zero, if◌then◌else◌,
}
use mathlib.Core.Path.{subst}
use rob320_p.Memory.{IsSized, done}
use rob320_p.Serialization.Deserialize.{deserialize_number}
use rob320_p.Serialization.Bounds.{copy_in_inside}
use rob320_p.Io.{Answer, Notif}
use rob320_p.Driver.{full, read_exact}

-- A buffer of bytes and its own length are a source.
pub own_size :
    (bs : List ℕ) (n : ℕ)
    → All IsByte bs
    → n ≡ length bs
    → n < 2 ^ 32
    → IsSized (record { bytes = bs; size = n })
own_size bs n h e l = record { are_bytes = h; held = omega arith; clear = omega arith }

-- The size prefix is the number that its four bytes are.
pub size_prefix :
    (buf : List ℕ)
    → length buf ≡ 4
    → All IsByte buf
    → deserialize_number 4 0 (record { bytes = buf; size = 4 }) 0 ≡ done (of_bytes buf) 4
unfolding deserialize_number
size_prefix buf e h =
    copy_in_inside 0 4 of_bytes (record { bytes = buf; size = 4 }) 0
      (own_size buf 4 h (sym e) (omega arith)) (omega arith) (omega arith)
    ∙ ap (λ bs. done (of_bytes bs) 4) (take_all 4 buf (omega arith))

pub prefix-lt : (buf : List ℕ) → length buf ≡ 4 → All IsByte buf → of_bytes buf < 2 ^ 32
prefix-lt buf e h = subst (λ k. of_bytes buf < 256 ^ k) e (of_bytes-lt buf h)

-- `if (msg_size > 0)` spares a call that would return at once.
pub payload_read :
    (n : ℕ) (input : List Answer) (notif : Notif)
    → (if ltb 0 n then read_exact n [] input notif else full [] input notif)
      ≡ read_exact n [] input notif
unfolding read_exact
payload_read zero input notif = refl
payload_read (suc n) input notif = rw (ltb_zero n)
