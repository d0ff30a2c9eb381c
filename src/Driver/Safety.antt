-- ===== src/Driver/Safety.antt =====
-- MBotDriver::spin (src/mbot_driver/mbot_driver.cpp) in any environment whatever.
use rob320_p.Base.{
  ℕ, zero, suc, ◌+◌, ◌≡◌, ◌<◌, ◌^◌, ◌≤◌, List, [], ◌∷◌, ◌++◌, length, arith, refl, of_bytes,
  Bool-cases, inl, inr,
}
use rob320_p.Memory.{Outcome, fault, failed, done}
use rob320_p.Memory.Readers.{Within}
use rob320_p.Messages.Twist2DStamped
use rob320_p.Messages.Twist2DStamped.{Twist2DStamped, stamped_message, stamped-IsCodec}
use rob320_p.Io.{Answer, Notif, notif_ready}
use rob320_p.Io.Stream.{total, AreBytes}
use rob320_p.Driver.{
  Exact, full, gave_up, waits, read_exact, stop, send_stop, Round, leave, again, pause, crash, obey,
  read_payload, read_size, read_message, round, Spin, returned, waiting, faulted, unfinished, spin,
}
use rob320_p.Driver.ReadExact.{Took, read_exact-Took}
use rob320_p.Driver.Steps.{own_size, size_prefix, prefix-lt, payload_read}

-- The last command is to stop.
abbrev pub EndsInStop : List Twist2DStamped → Type 0
EndsInStop drives = (before : List Twist2DStamped) × (drives ≡ before ++ (stop ∷ []))

-- A round never faults, ends the loop by a stop only, and otherwise used four bytes at least of the `n`
-- that there were.
abbrev pub IsSound : ℕ → Round → Type 0
IsSound n (leave drives) = EndsInStop drives
IsSound n (again drives input notif) = (total input + 4 ≤ n) × AreBytes input
IsSound n (pause drives) = Unit {0}
IsSound n crash = ⊥

send_stop-EndsInStop : (drives : List Twist2DStamped) → EndsInStop (send_stop drives)
unfolding send_stop
send_stop-EndsInStop drives = (drives, refl)

obey_outcome :
    (n k : ℕ) (r : Outcome Twist2DStamped) (drives : List Twist2DStamped) (payload : List ℕ)
    (input : List Answer) (notif : Notif)
    → Twist2DStamped.deserialize stamped_message.init
        (record { bytes = payload; size = length payload })
        0
      ≡ r
    → Within 0 k r
    → total input + 4 ≤ n
    → AreBytes input
    → IsSound n (obey drives payload input notif)
unfolding obey
obey_outcome n k fault drives payload input notif e w h b = absurd w
obey_outcome n k (failed c o) drives payload input notif e w h b = rw (e, obey) (h, b)
obey_outcome n k (done c o) drives payload input notif e w h b = rw (e, obey) (h, b)

read_outcome :
    (n msg_size : ℕ) (r : Exact) (drives : List Twist2DStamped) (input : List Answer)
    (notif : Notif)
    → read_exact msg_size [] input notif ≡ r
    → msg_size < 2 ^ 32
    → Took msg_size [] input r
    → total input + 4 ≤ n
    → IsSound n (read_payload drives msg_size input notif)
unfolding read_payload
read_outcome n msg_size (full payload input' notif') drives input notif e l t h =
    rw (payload_read msg_size input notif, e, read_payload)
      (obey_outcome n (length payload) _ drives payload input' notif' refl
        ((stamped-IsCodec.deserialize-IsBounded stamped_message.init).within
          (record { bytes = payload; size = length payload }) 0
          (own_size payload (length payload) t.1 refl (omega (arith, t.0))) (omega arith))
        (omega (arith, t.2)) t.3)
read_outcome n msg_size (gave_up input' notif') drives input notif e l t h =
    rw (payload_read msg_size input notif, e, read_payload) (send_stop-EndsInStop drives)
read_outcome n msg_size waits drives input notif e l t h =
    rw (payload_read msg_size input notif, e, read_payload) tt

message_outcome :
    (r : Exact) (drives : List Twist2DStamped) (input : List Answer) (notif : Notif)
    → read_exact 4 [] input notif ≡ r
    → Took 4 [] input r
    → IsSound (total input) (read_message drives input notif)
unfolding read_message read_size
message_outcome (full buf input' notif') drives input notif e t =
    rw (e, read_message, size_prefix buf (omega (arith, t.0)) t.1, read_size)
      (read_outcome (total input) (of_bytes buf) _ drives input' notif' refl
        (prefix-lt buf (omega (arith, t.0)) t.1)
        (read_exact-Took (of_bytes buf) [] input' notif' tt t.3) (omega (arith, t.2)))
message_outcome (gave_up input' notif') drives input notif e t =
    rw (e, read_message) (send_stop-EndsInStop drives)
message_outcome waits drives input notif e t = rw (e, read_message) tt

pub round-IsSound :
    (drives : List Twist2DStamped) (input : List Answer) (notif : Notif)
    → AreBytes input
    → IsSound (total input) (round drives input notif)
unfolding round
round-IsSound drives input notif h = elim (Bool-cases (notif_ready notif).0) [
  | inl ready ↦ rw ready (send_stop-EndsInStop drives)
  | inr no_notif ↦ rw no_notif (
      message_outcome _ drives input (notif_ready notif).1 refl
        (read_exact-Took 4 [] input (notif_ready notif).1 tt h))
]

-- The run returned with a stop as the last command, or waits for input: no fault, and fuel left.
abbrev pub IsSafe : Spin → Type 0
IsSafe (returned drives) = EndsInStop drives
IsSafe (waiting drives) = Unit {0}
IsSafe faulted = ⊥
IsSafe unfinished = ⊥

spin-round :
    (fuel : ℕ) (r : Round) (drives : List Twist2DStamped) (input : List Answer) (notif : Notif)
    → round drives input notif ≡ r
    → IsSound (total input) r
    → ((drives : List Twist2DStamped) (input' : List Answer) (notif : Notif)
        → total input' + 4 ≤ total input
        → AreBytes input'
        → IsSafe (spin fuel drives input' notif))
    → IsSafe (spin (suc fuel) drives input notif)
unfolding spin
spin-round fuel (leave ds) drives input notif e h ih = rw (e, spin) h
spin-round fuel (again ds input' notif') drives input notif e h ih =
    rw (e, spin) (ih ds input' notif' h.0 h.1)
spin-round fuel (pause ds) drives input notif e h ih = rw (e, spin) tt
spin-round fuel crash drives input notif e h ih = absurd h

-- If the input holds bytes only, with more fuel than bytes, spin never reads outside of a buffer and
-- does not run out of fuel: it waits for input, or it returns with a stop as the last command, whatever
-- the bytes, their cuts, the errors and the notification are.
pub spin-IsSafe :
    (fuel : ℕ) (drives : List Twist2DStamped) (input : List Answer) (notif : Notif)
    → AreBytes input
    → total input < fuel
    → IsSafe (spin fuel drives input notif)
spin-IsSafe zero drives input notif h l = absurd (omega arith)
spin-IsSafe (suc fuel) drives input notif h l =
    spin-round fuel (round drives input notif) drives input notif refl
      (round-IsSound drives input notif h)
      λ ds input' notif' less b. spin-IsSafe fuel ds input' notif' b (omega arith)
