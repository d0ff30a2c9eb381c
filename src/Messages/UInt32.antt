-- ===== src/Messages/UInt32.antt =====
-- include/rix/msg/standard/UInt32.hpp
use rob320_p.Base.{ℕ, ◌≡◌, ◌<◌, ◌^◌, List, Option, to_bytes, arith, length, length-to_bytes}
use rob320_p.Memory.{Out, Reader, done, then_read, add_size}
use rob320_p.Memory.Readers.{Decodes, IsBounded, last-Decodes, last-IsBounded}
use rob320_p.Message.{Message, IsCodec}
use rob320_p.Serialization.Size.{size_number}
use rob320_p.Serialization.Serialize.{serialize_number}
use rob320_p.Serialization.Deserialize.{deserialize_number}
use rob320_p.Serialization.Layout.{serialize_number-wire}
use rob320_p.Serialization.Lengths.{size_number-length}
use rob320_p.Serialization.Bounds.{deserialize_number-IsBounded}
use rob320_p.Serialization.RoundTrip.{deserialize_number-Decodes}

pub record UInt32 : Type 0 where
  pub value : ℕ

unfoldable pub size : UInt32 → ℕ
size m = add_size 0 (size_number 4 m.value)

unfoldable pub hash : UInt32 → ℕ × ℕ
hash m = (0x55aa2bc284c5d8d8, 0x59a88852ffabad79)

unfoldable pub serialize : UInt32 → Out → Option Out
serialize m o = serialize_number 4 m.value o

unfoldable pub deserialize : UInt32 → Reader UInt32
unfolding then_read deserialize_number
deserialize m =
    then_read (deserialize_number 4 m.value) (λ value. record { value = value })
      λ value s o. done (record { value = value }) o

instance abbrev pub uint32_message : Message UInt32
uint32_message = record {
  init = record { value = 0 };
  size = size;
  hash = hash;
  serialize = serialize;
  deserialize = deserialize;
}

abbrev pub wire : UInt32 → List ℕ
wire m = to_bytes 4 m.value

abbrev pub Fits : UInt32 → Type 0
Fits m = m.value < 2 ^ 32

size-wire : (m : UInt32) → size m ≡ length (wire m)
unfolding size
size-wire m = omega (arith, size_number-length 4 m.value (omega arith), length-to_bytes 4 m.value)

deserialize-wire : (m old : UInt32) → Fits m → Decodes (deserialize old) m (wire m)
unfolding deserialize
deserialize-wire m old h =
    last-Decodes (deserialize_number 4 old.value) _ (λ value. record { value = value }) m.value _
      (deserialize_number-Decodes 4 old.value m.value (omega arith) h)

deserialize-IsBounded : (old : UInt32) → IsBounded (deserialize old)
unfolding deserialize
deserialize-IsBounded old =
    last-IsBounded (deserialize_number 4 old.value) _ _
      (deserialize_number-IsBounded 4 old.value (omega arith))

-- The class keeps the contract of a message over its encoding.
pub uint32-IsCodec : IsCodec uint32_message wire Fits
unfolding serialize
uint32-IsCodec = record {
  short_wire = λ m h. omega (arith, length-to_bytes 4 m.value);
  size-wire = λ m h. size-wire m;
  serialize-wire = λ m o h. serialize_number-wire 4 m.value o;
  deserialize-wire = deserialize-wire;
  deserialize-IsBounded = deserialize-IsBounded;
}
