-- ===== src/Messages/Delivery.antt =====
-- Each message of include/rix/msg: what `serialize` writes, `deserialize` reads; and `deserialize` on any bytes.
use rob320_p.Base.{
  ℕ, ◌+◌, ◌≤◌, List, ◌++◌, All, All-append, IsByte, length, to_bytes, to_bytes-IsByte,
}
use rob320_p.Memory.{Src, IsSized}
use rob320_p.Memory.Readers.{Within}
use rob320_p.Memory.Delivery.{Delivered, IsBuffer, written-Delivered}
use rob320_p.Message.{Message, IsCodec}
use rob320_p.Messages.UInt32
use rob320_p.Messages.Time
use rob320_p.Messages.Duration
use rob320_p.Messages.Header
use rob320_p.Messages.Twist2D
use rob320_p.Messages.Twist2DStamped

two_words : (a b : ℕ) → All IsByte (to_bytes 4 a ++ to_bytes 4 b)
two_words a b = All-append IsByte (to_bytes 4 a) _ (to_bytes-IsByte 4 a) (to_bytes-IsByte 4 b)

three_words : (a b c : ℕ) → All IsByte (to_bytes 4 a ++ (to_bytes 4 b ++ to_bytes 4 c))
three_words a b c = All-append IsByte (to_bytes 4 a) _ (to_bytes-IsByte 4 a) (two_words b c)

header-AreBytes : (m : Header.Header) → All IsByte m.frame_id → All IsByte (Header.wire m)
header-AreBytes m h = All-append IsByte (to_bytes 4 m.seq) _ (to_bytes-IsByte 4 m.seq) (
    All-append IsByte (Time.wire m.stamp) _ (two_words m.stamp.sec m.stamp.nsec) (
      All-append IsByte (to_bytes 4 (length m.frame_id)) m.frame_id
        (to_bytes-IsByte 4 (length m.frame_id)) h))

pub stamped-AreBytes :
    (m : Twist2DStamped.Twist2DStamped)
    → All IsByte m.header.frame_id
    → All IsByte (Twist2DStamped.wire m)
stamped-AreBytes m h =
    All-append IsByte (Header.wire m.header) _ (header-AreBytes m.header h)
      (three_words m.twist.vx m.twist.vy m.twist.wz)

module _ {A : Type 0} ⦃m : Message A⦄ (wire : A → List ℕ) (Fits : A → Type 0)
    (codec : IsCodec m wire Fits) where
  codec-Delivered :
      (old a : A) (dst : List ℕ) (i : ℕ)
      → Fits a
      → All IsByte (wire a)
      → IsBuffer dst
      → i + m.size a ≤ length dst
      → Delivered (m.serialize a) (m.deserialize old) a dst i (m.size a)
  codec-Delivered old a dst i f h b fits =
      written-Delivered (m.serialize a) (m.deserialize old) a (wire a) dst i (m.size a)
        (codec.serialize-wire a _ f) (codec.deserialize-wire a old f) h (codec.size-wire a f) b fits

-- In a buffer of bytes that is 2 ^ 36 short of the address space at least and that has room for it
-- behind the offset, serialize writes a UInt32 of 32 bits and moves the offset by size; deserialize
-- from there gives it back, whatever its old value, and moves the offset as far.
pub uint32-Delivered :
    (old a : UInt32.UInt32) (dst : List ℕ) (i : ℕ)
    → UInt32.Fits a
    → IsBuffer dst
    → i + UInt32.size a ≤ length dst
    → Delivered (UInt32.serialize a) (UInt32.deserialize old) a dst i (UInt32.size a)
uint32-Delivered old a dst i f b fits =
    codec-Delivered ⦃m = UInt32.uint32_message⦄ UInt32.wire UInt32.Fits UInt32.uint32-IsCodec old a
      dst i f (to_bytes-IsByte 4 a.value) b fits

-- In a buffer of bytes that is 2 ^ 36 short of the address space at least and that has room for it
-- behind the offset, serialize writes a Time message of 32-bit patterns and moves the offset by size;
-- deserialize from there gives it back, whatever its old value, and moves the offset as far.
pub time-Delivered :
    (old a : Time.Time) (dst : List ℕ) (i : ℕ)
    → Time.Fits a
    → IsBuffer dst
    → i + Time.size a ≤ length dst
    → Delivered (Time.serialize a) (Time.deserialize old) a dst i (Time.size a)
time-Delivered old a dst i f b fits =
    codec-Delivered ⦃m = Time.time_message⦄ Time.wire Time.Fits Time.time-IsCodec old a dst i f
      (two_words a.sec a.nsec) b fits

-- In a buffer of bytes that is 2 ^ 36 short of the address space at least and that has room for it
-- behind the offset, serialize writes a Duration message of 32-bit patterns and moves the offset by
-- size; deserialize from there gives it back, whatever its old value, and moves the offset as far.
pub duration-Delivered :
    (old a : Duration.Duration) (dst : List ℕ) (i : ℕ)
    → Duration.Fits a
    → IsBuffer dst
    → i + Duration.size a ≤ length dst
    → Delivered (Duration.serialize a) (Duration.deserialize old) a dst i (Duration.size a)
duration-Delivered old a dst i f b fits =
    codec-Delivered ⦃m = Duration.duration_message⦄ Duration.wire Duration.Fits
      Duration.duration-IsCodec old a dst i f (two_words a.sec a.nsec) b fits

-- In a buffer of bytes that is 2 ^ 36 short of the address space at least and that has room for it
-- behind the offset, serialize writes a Header that fits its encoding, with a frame_id of bytes, and
-- moves the offset by size; deserialize from there gives it back, whatever its old value, and moves the
-- offset as far.
pub header-Delivered :
    (old a : Header.Header) (dst : List ℕ) (i : ℕ)
    → Header.Fits a
    → All IsByte a.frame_id
    → IsBuffer dst
    → i + Header.size a ≤ length dst
    → Delivered (Header.serialize a) (Header.deserialize old) a dst i (Header.size a)
header-Delivered old a dst i f h b fits =
    codec-Delivered ⦃m = Header.header_message⦄ Header.wire Header.Fits Header.header-IsCodec old a
      dst i f (header-AreBytes a h) b fits

-- In a buffer of bytes that is 2 ^ 36 short of the address space at least and that has room for it
-- behind the offset, serialize writes a Twist2D of 32-bit patterns and moves the offset by size;
-- deserialize from there gives it back, whatever its old value, and moves the offset as far.
pub twist-Delivered :
    (old a : Twist2D.Twist2D) (dst : List ℕ) (i : ℕ)
    → Twist2D.Fits a
    → IsBuffer dst
    → i + Twist2D.size a ≤ length dst
    → Delivered (Twist2D.serialize a) (Twist2D.deserialize old) a dst i (Twist2D.size a)
twist-Delivered old a dst i f b fits =
    codec-Delivered ⦃m = Twist2D.twist_message⦄ Twist2D.wire Twist2D.Fits Twist2D.twist-IsCodec old
      a dst i f (three_words a.vx a.vy a.wz) b fits

-- In a buffer of bytes that is 2 ^ 36 short of the address space at least and that has room for it
-- behind the offset, serialize writes a Twist2DStamped that fits its encoding, with a frame_id of
-- bytes, and moves the offset by size; deserialize from there gives it back, whatever its old value,
-- and moves the offset as far.
pub stamped-Delivered :
    (old a : Twist2DStamped.Twist2DStamped) (dst : List ℕ) (i : ℕ)
    → Twist2DStamped.Fits a
    → All IsByte a.header.frame_id
    → IsBuffer dst
    → i + Twist2DStamped.size a ≤ length dst
    → Delivered
        (Twist2DStamped.serialize a)
        (Twist2DStamped.deserialize old)
        a
        dst
        i
        (Twist2DStamped.size a)
stamped-Delivered old a dst i f h b fits =
    codec-Delivered ⦃m = Twist2DStamped.stamped_message⦄ Twist2DStamped.wire Twist2DStamped.Fits
      Twist2DStamped.stamped-IsCodec old a dst i f (stamped-AreBytes a h) b fits

-- From a source of bytes that is as long as it claims and at an offset within it, deserialize of a
-- Twist2DStamped never reads outside of the source, and leaves the offset between where it was and the
-- end, whether it succeeds or fails.
pub stamped-Within :
    (old : Twist2DStamped.Twist2DStamped) (s : Src) (o : ℕ)
    → IsSized s
    → o ≤ s.size
    → Within o s.size (Twist2DStamped.deserialize old s o)
stamped-Within old s o z h =
    (Twist2DStamped.stamped-IsCodec.deserialize-IsBounded old).within s o z h
