-- ===== src/MBot/Timesync.antt =====
-- MBot::timesync of src/mbot/mbot.cpp, a round for each time that the stop flag is not set.
use rob320_p.Base.{
  ℕ, ◌/◌, ◌≡◌, List, [], ◌∷◌, true, false, Option, none, some, length, map, All, refl, arith,
  to_bytes, length-to_bytes, Bool-cases, inl, inr,
}
use rob320_p.Base.Int.{ℤ, pos, ◌+ℤ◌, ◌*ℤ◌, ltb_ℤ}
use rob320_p.Ipc.Kernel.{Kernel}
use rob320_p.Ipc.File.{File, write}
use rob320_p.MBot.{refused, encoded, fault, encode_msg}
use rob320_p.MBot.Drive.{pattern_64}
use rob320_p.MBot.Packet.{packet, encode_msg-packet}

-- MBOT_TIMESYNC
abbrev pub mbot_timesync : ℕ
mbot_timesync = 201

-- What clock_gettime gives in a round, and what the memory has in `rospkt`.
pub record Tick : Type 0 where
  pub tv_sec : ℤ
  pub tv_nsec : ℕ
  pub old : List ℕ

-- The bytes of serial_timestamp_t.
unfoldable pub timestamp_bytes : Tick → List ℕ
timestamp_bytes t = to_bytes 8 (pattern_64 (t.tv_sec *ℤ 1_000_000 +ℤ pos (t.tv_nsec / 1_000)))

module _ (k : Kernel) where
  -- `none` is an access outside of `rospkt`.
  unfoldable pub timesync : File → List Tick → k.State → Option k.State
  unfolding encode_msg timestamp_bytes write
  timesync f [] s = some s
  timesync f (t ∷ ticks) s = elim (encode_msg (timestamp_bytes t) mbot_timesync t.old) [
    | refused ↦ some s
    | fault ↦ none
    | encoded rospkt ↦ elim (ltb_ℤ (write k f rospkt s).0 (pos 0)) [
      | true ↦ some (write k f rospkt s).1
      | false ↦ timesync f ticks (write k f rospkt s).1
    ]
  ]

  -- Write after write, up to one that fails.
  unfoldable pub writes : File → List (List ℕ) → k.State → k.State
  writes f [] s = s
  writes f (bs ∷ rest) s = elim (ltb_ℤ (write k f bs s).0 (pos 0)) [
    | true ↦ (write k f bs s).1
    | false ↦ writes f rest (write k f bs s).1
  ]

abbrev pub tick_packet : Tick → List ℕ
tick_packet t = packet (timestamp_bytes t) mbot_timesync

pub length-timestamp_bytes : (t : Tick) → length (timestamp_bytes t) ≡ 8
unfolding timestamp_bytes
length-timestamp_bytes t = length-to_bytes 8 _

-- With the 16 bytes of its buffer in each round, whatever they hold, timesync makes no access outside
-- of it and writes one packet a round, of the topic of timestamps with the microseconds of the clock,
-- until the rounds or a write fail.
pub timesync-writes :
    (k : Kernel) (f : File) (ticks : List Tick) (s : k.State)
    → All (λ (t : Tick). length t.old ≡ 16) ticks
    → timesync k f ticks s ≡ some (writes k f (map tick_packet ticks) s)
unfolding timesync writes
timesync-writes k f [] s h = refl
timesync-writes k f (t ∷ ticks) s (h, hs) =
    let sent : encode_msg (timestamp_bytes t) mbot_timesync t.old ≡ encoded (tick_packet t) =
      encode_msg-packet (timestamp_bytes t) mbot_timesync t.old
        (omega (arith, h, length-timestamp_bytes t)) in
    elim (Bool-cases (ltb_ℤ (write k f (tick_packet t) s).0 (pos 0))) [
      | inl failed ↦ rw (timesync, sent, writes, failed) refl
      | inr ok ↦
          rw (timesync, sent, writes, ok)
            (timesync-writes k f ticks (write k f (tick_packet t) s).1 hs)
    ]
