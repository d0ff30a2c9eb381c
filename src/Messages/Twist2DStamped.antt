-- ===== src/Messages/Twist2DStamped.antt =====
-- include/rix/msg/geometry/Twist2DStamped.hpp
use rob320_p.Base.{ℕ, ◌+◌, ◌≡◌, List, ◌++◌, Option, ◌>>=◌, arith, length, length-append}
use rob320_p.Memory.{Out, Reader, done, then_read, add_size, write}
use rob320_p.Memory.Copy.{write_then}
use rob320_p.Memory.Readers.{
  Decodes, IsBounded, then_read-Decodes, then_read-IsBounded, last-Decodes, last-IsBounded,
}
use rob320_p.Message.{Message, IsCodec}
use rob320_p.Serialization.Size.{size_message}
use rob320_p.Serialization.Serialize.{serialize_message}
use rob320_p.Serialization.Deserialize.{deserialize_message}
use rob320_p.Serialization.Layout.{serialize_message-wire}
use rob320_p.Serialization.Lengths.{size_message-length}
use rob320_p.Serialization.Bounds.{deserialize_message-IsBounded}
use rob320_p.Serialization.RoundTrip.{deserialize_message-Decodes}
use rob320_p.Messages.Header
use rob320_p.Messages.Header.{Header, header_message, header-IsCodec}
use rob320_p.Messages.Twist2D
use rob320_p.Messages.Twist2D.{Twist2D, twist_message, twist-IsCodec}

pub record Twist2DStamped : Type 0 where
  pub header : Header
  pub twist : Twist2D

unfoldable pub size : Twist2DStamped → ℕ
size m = add_size (add_size 0 (size_message m.header)) (size_message m.twist)

unfoldable pub hash : Twist2DStamped → ℕ × ℕ
hash m = (0x463cb851594cfdbe, 0x9be7d269b40e97b6)

unfoldable pub serialize : Twist2DStamped → Out → Option Out
serialize m o = serialize_message m.header o >>= serialize_message m.twist

unfoldable pub deserialize : Twist2DStamped → Reader Twist2DStamped
unfolding then_read deserialize_message
deserialize m =
    then_read (deserialize_message m.header) (λ header. record m { header = header })
      λ header.
        then_read (deserialize_message m.twist) (λ twist. record { header = header; twist = twist })
          λ twist s o. done (record { header = header; twist = twist }) o

instance abbrev pub stamped_message : Message Twist2DStamped
stamped_message = record {
  init = record { header = header_message.init; twist = twist_message.init };
  size = size;
  hash = hash;
  serialize = serialize;
  deserialize = deserialize;
}

abbrev pub wire : Twist2DStamped → List ℕ
wire m = Header.wire m.header ++ Twist2D.wire m.twist

abbrev pub Fits : Twist2DStamped → Type 0
Fits m = Header.Fits m.header × Twist2D.Fits m.twist

pub length-wire : (m : Twist2DStamped) → length (wire m) ≡ 28 + length m.header.frame_id
length-wire m = omega (
  arith,
  length-append (Header.wire m.header) (Twist2D.wire m.twist),
  Header.length-wire m.header,
  Twist2D.length-wire m.twist,
)

size-wire : (m : Twist2DStamped) → Fits m → size m ≡ length (wire m)
unfolding size
size-wire m h = omega (
  arith,
  length-wire m,
  size_message-length Header.wire Header.Fits header-IsCodec m.header h.0,
  Header.length-wire m.header,
  size_message-length Twist2D.wire Twist2D.Fits twist-IsCodec m.twist h.1,
  Twist2D.length-wire m.twist,
  h.0.2,
)

serialize-wire : (m : Twist2DStamped) (o : Out) → Fits m → serialize m o ≡ write (wire m) o
unfolding serialize
serialize-wire m o h =
    write_then (serialize_message m.header) (serialize_message m.twist) _ _ o
      (serialize_message-wire Header.wire Header.Fits header-IsCodec m.header o h.0)
      λ o. serialize_message-wire Twist2D.wire Twist2D.Fits twist-IsCodec m.twist o h.1

deserialize-wire : (m old : Twist2DStamped) → Fits m → Decodes (deserialize old) m (wire m)
unfolding deserialize
deserialize-wire m old h =
    then_read-Decodes (deserialize_message old.header) _ _ m.header m _ _
      (deserialize_message-Decodes Header.wire Header.Fits header-IsCodec old.header m.header h.0)
      (last-Decodes (deserialize_message old.twist) _
        (λ twist. record { header = m.header; twist = twist }) m.twist _
        (deserialize_message-Decodes Twist2D.wire Twist2D.Fits twist-IsCodec old.twist m.twist h.1))

deserialize-IsBounded : (old : Twist2DStamped) → IsBounded (deserialize old)
unfolding deserialize
deserialize-IsBounded old =
    then_read-IsBounded (deserialize_message old.header) _ _
      (deserialize_message-IsBounded header-IsCodec.deserialize-IsBounded old.header)
      λ header.
        last-IsBounded (deserialize_message old.twist) _ _
          (deserialize_message-IsBounded twist-IsCodec.deserialize-IsBounded old.twist)

-- The class keeps the contract of a message over its encoding.
pub stamped-IsCodec : IsCodec stamped_message wire Fits
stamped-IsCodec = record {
  short_wire = λ m h. omega (arith, length-wire m, h.0.2);
  size-wire = size-wire;
  serialize-wire = serialize-wire;
  deserialize-wire = deserialize-wire;
  deserialize-IsBounded = deserialize-IsBounded;
}
