-- ===== src/MBot/Drive.antt =====
-- MBot::drive of src/mbot/mbot.cpp, with the file of the serial port over a kernel. The mutex is left out.
use rob320_p.Base.{
  ℕ, ◌+◌, ◌-◌, ◌*◌, ◌/◌, ◌%◌, ◌^◌, ◌≡◌, ◌≢◌, ◌<◌, ◌∙◌, List, ◌++◌, length, Option, none, some,
  arith, ap, sym, to_bytes, length-to_bytes, length-append, lt→ltb,
}
use rob320_p.Util.Chrono
use rob320_p.Base.Int.{ℤ, pos, negsuc, div_ℤ, ◌+ℤ◌, ◌*ℤ◌}
use rob320_p.Messages.Twist2DStamped.{Twist2DStamped}
use rob320_p.Util.Time
use rob320_p.Util.Time.{RoundType}
use rob320_p.Ipc.Kernel.{Kernel}
use rob320_p.Ipc.File.{File, write}
use rob320_p.MBot.{Encoded, refused, encoded, fault, encode_msg}
use rob320_p.MBot.Packet.{packet, encode_msg-packet}

-- The bit pattern of an int64_t.
abbrev pub pattern_64 : ℤ → ℕ
pattern_64 (pos n) = n % 2 ^ 64
pattern_64 (negsuc n) = 2 ^ 64 - 1 - n % 2 ^ 64

-- The bytes of serial_twist2D_t; a float is its bit pattern.
unfoldable pub twist_bytes : Twist2DStamped → List ℕ
unfolding Time.of_msg Time.to_microseconds
twist_bytes cmd =
    to_bytes 8 (pattern_64 (Time.to_microseconds (Time.of_msg cmd.header.stamp) RoundType.floor))
    ++ (to_bytes 4 cmd.twist.vx ++ (to_bytes 4 cmd.twist.vy ++ to_bytes 4 cmd.twist.wz))

-- MBOT_VEL_CMD
abbrev pub mbot_vel_cmd : ℕ
mbot_vel_cmd = 214

module _ (k : Kernel) where
  -- `old` is what the memory has in `msg`, and `none` an access outside of it.
  abbrev pub send : List ℕ → File → k.State → Encoded → Option k.State
  send old f s refused = some (write k f old s).1
  send old f s (encoded msg) = some (write k f msg s).1
  send old f s fault = none

  unfoldable pub drive : File → Twist2DStamped → List ℕ → k.State → Option k.State
  unfolding encode_msg twist_bytes write
  drive f cmd old s = send old f s (encode_msg (twist_bytes cmd) mbot_vel_cmd old)

pub length-twist_bytes : (cmd : Twist2DStamped) → length (twist_bytes cmd) ≡ 20
unfolding twist_bytes
length-twist_bytes cmd =
    let t : List ℕ =
      to_bytes 8
        (pattern_64 (Time.to_microseconds (Time.of_msg cmd.header.stamp) RoundType.floor)) in
    let x : List ℕ = to_bytes 4 cmd.twist.vx in
    let y : List ℕ = to_bytes 4 cmd.twist.vy in
    let z : List ℕ = to_bytes 4 cmd.twist.wz in
    omega (
      arith,
      length-append t (x ++ (y ++ z)),
      length-append x (y ++ z),
      length-append y z,
      length-to_bytes 8
          (pattern_64 (Time.to_microseconds (Time.of_msg cmd.header.stamp) RoundType.floor)),
      length-to_bytes 4 cmd.twist.vx,
      length-to_bytes 4 cmd.twist.vy,
      length-to_bytes 4 cmd.twist.wz,
    )

-- With the 28 bytes of its buffer, whatever they hold, drive makes no access outside of it and writes
-- one packet to the file: the topic of velocity commands, with the bytes of the command.
pub drive-packet :
    (k : Kernel) (f : File) (cmd : Twist2DStamped) (old : List ℕ) (s : k.State)
    → length old ≡ 28
    → drive k f cmd old s ≡ some (write k f (packet (twist_bytes cmd) mbot_vel_cmd) s).1
unfolding drive
drive-packet k f cmd old s h = ap (send k old f s) (
    encode_msg-packet (twist_bytes cmd) mbot_vel_cmd old (omega (arith, h, length-twist_bytes cmd)))

pos_times : (a k : ℕ) → pos a *ℤ k ≡ pos (a * k)
unfolding ◌*ℤ◌
pos_times a k = ground arith

pos_plus : (a b : ℕ) → pos a +ℤ pos b ≡ pos (a + b)
unfolding ◌+ℤ◌
pos_plus a b = ground arith

microseconds_lem :
    (sec nsec : ℕ)
    → sec < 2 ^ 31
    → nsec < 2 ^ 31
    → Time.to_microseconds (Time.of_msg (record { sec = sec; nsec = nsec })) RoundType.floor
      ≡ pos (sec * 1_000_000 + nsec / 1_000)
unfolding Time.to_microseconds Time.of_msg Time.of_parts Chrono.duration_cast div_ℤ
microseconds_lem sec nsec h k =
    rw
      (
        lt→ltb sec (2 ^ 31) h,
        lt→ltb nsec (2 ^ 31) k,
        pos_times sec 1_000_000_000,
        pos_plus (sec * 1_000_000_000) nsec,
      )
      (ap pos (omega arith))

utime_lem :
    (sec nsec : ℕ)
    → sec < 2 ^ 31
    → nsec < 2 ^ 31
    → pattern_64
        (Time.to_microseconds (Time.of_msg (record { sec = sec; nsec = nsec })) RoundType.floor)
      ≡ sec * 1_000_000 + nsec / 1_000
utime_lem sec nsec h k = ap pattern_64 (microseconds_lem sec nsec h k) ∙ omega (arith, h, k)

-- With the 28 bytes of its buffer, whatever they hold, and a stamp whose seconds and nanoseconds are
-- not negative, drive makes no access outside of the buffer and writes one packet to the file, of the
-- topic 214: its message is the whole microseconds of the stamp in eight bytes, then the velocities vx,
-- vy and wz of the command in four bytes each.
pub drive-velocities :
    (k : Kernel) (f : File) (cmd : Twist2DStamped) (old : List ℕ) (s : k.State)
    → length old ≡ 28
    → cmd.header.stamp.sec < 2 ^ 31
    → cmd.header.stamp.nsec < 2 ^ 31
    → drive k f cmd old s
      ≡ some
          (write k f
            (packet
              (to_bytes 8 (cmd.header.stamp.sec * 1_000_000 + cmd.header.stamp.nsec / 1_000)
                ++ (to_bytes 4 cmd.twist.vx
                    ++ (to_bytes 4 cmd.twist.vy ++ to_bytes 4 cmd.twist.wz)))
              214)
            s).1
unfolding twist_bytes
drive-velocities k f cmd old s room h h' =
    drive-packet k f cmd old s room
    ∙ ap
        (λ t.
          some
            (write k f
              (packet
                (to_bytes 8 t
                  ++ (to_bytes 4 cmd.twist.vx
                      ++ (to_bytes 4 cmd.twist.vy ++ to_bytes 4 cmd.twist.wz)))
                mbot_vel_cmd)
              s).1)
        (utime_lem cmd.header.stamp.sec cmd.header.stamp.nsec h h')

no_value : {A : Type 0} {a : A} → some a ≢ none
no_value h = absurd (ground (arith, h))

pub drive-IsSafe :
    (k : Kernel) (f : File) (cmd : Twist2DStamped) (old : List ℕ) (s : k.State)
    → length old ≡ 28
    → drive k f cmd old s ≢ none
drive-IsSafe k f cmd old s room h = no_value (sym (drive-packet k f cmd old s room) ∙ h)
