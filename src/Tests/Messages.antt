-- ===== src/Tests/Messages.antt =====
-- The messages of include/rix/msg through a buffer of 64 bytes.
use rob320_p.Base.{ℕ, zero, suc, ◌+◌, ◌≤◌, List, [], ◌∷◌, arith, All, IsByte, replicate, length}
use rob320_p.Memory.{Src, IsSized}
use rob320_p.Memory.Readers.{Within}
use rob320_p.Memory.Delivery.{Delivered, IsBuffer}
use rob320_p.Serialization.Size.{size_number, size_string, size_message}
use rob320_p.Messages.UInt32
use rob320_p.Messages.Time
use rob320_p.Messages.Duration
use rob320_p.Messages.Header
use rob320_p.Messages.Twist2D
use rob320_p.Messages.Twist2DStamped
use rob320_p.Messages.Delivery.{stamped-Delivered, stamped-Within}

abbrev pub buffer : List ℕ
buffer = replicate 64 0

zeros-AreBytes : (n : ℕ) → All IsByte (replicate n 0)
zeros-AreBytes zero = tt
zeros-AreBytes (suc n) = (omega arith, zeros-AreBytes n)

pub buffer-IsBuffer : IsBuffer buffer
buffer-IsBuffer = (zeros-AreBytes 64, omega arith)

abbrev header_value : Header.Header
header_value = record { seq = 7; stamp = Time.time_message.init; frame_id = 5 ∷ [] }

abbrev twist_value : Twist2D.Twist2D
twist_value = record { vx = 7; vy = 9; wz = 11 }

abbrev stamped_value : Twist2DStamped.Twist2DStamped
stamped_value = record { header = header_value; twist = twist_value }

stamped_room : 3 + Twist2DStamped.size stamped_value ≤ length buffer
unfolding size_number size_string size_message UInt32.size Time.size Duration.size Header.size
    Twist2D.size Twist2DStamped.size
stamped_room = omega arith

stamped-Delivered_example :
    Delivered
      (Twist2DStamped.serialize stamped_value)
      (Twist2DStamped.deserialize Twist2DStamped.stamped_message.init)
      stamped_value
      buffer
      3
      (Twist2DStamped.size stamped_value)
stamped-Delivered_example =
    stamped-Delivered Twist2DStamped.stamped_message.init stamped_value buffer 3
      (
        (omega arith, (omega arith, omega arith), omega arith),
        (omega arith, omega arith, omega arith),
      )
      (omega arith, tt) buffer-IsBuffer stamped_room

abbrev short_source : Src
short_source = record { bytes = 1 ∷ 2 ∷ 3 ∷ []; size = 3 }

short-IsSized : IsSized short_source
short-IsSized = record {
  are_bytes = (omega arith, (omega arith, (omega arith, tt)));
  held = omega arith;
  clear = omega arith;
}

stamped-Within_example : Within 1 3 (Twist2DStamped.deserialize stamped_value short_source 1)
stamped-Within_example = stamped-Within stamped_value short_source 1 short-IsSized (omega arith)
