-- ===== src/Messages/Header.antt =====
-- include/rix/msg/standard/Header.hpp
use rob320_p.Base.{
  ℕ, ◌+◌, ◌≡◌, ◌<◌, ◌^◌, List, [], ◌++◌, Option, ◌>>=◌, to_bytes, arith, length, length-append,
  length-to_bytes,
}
use rob320_p.Memory.{Out, Reader, done, then_read, add_size, write}
use rob320_p.Memory.Copy.{write_then}
use rob320_p.Memory.Readers.{
  Decodes, IsBounded, then_read-Decodes, then_read-IsBounded, last-Decodes, last-IsBounded,
}
use rob320_p.Message.{Message, IsCodec}
use rob320_p.Serialization.Size.{size_number, size_string, size_message}
use rob320_p.Serialization.Serialize.{serialize_number, serialize_string, serialize_message}
use rob320_p.Serialization.Deserialize.{deserialize_number, deserialize_string, deserialize_message}
use rob320_p.Serialization.Layout.{
  serialize_number-wire, serialize_string-wire, serialize_message-wire, wire_string,
}
use rob320_p.Serialization.Lengths.{
  size_number-length, size_string-length, size_message-length, length-wire_string,
}
use rob320_p.Serialization.Bounds.{
  deserialize_number-IsBounded, deserialize_string-IsBounded, deserialize_message-IsBounded,
}
use rob320_p.Serialization.RoundTrip.{
  deserialize_number-Decodes, deserialize_string-Decodes, deserialize_message-Decodes,
}
use rob320_p.Messages.Time
use rob320_p.Messages.Time.{Time, time_message, time-IsCodec}

pub record Header : Type 0 where
  pub seq : ℕ
  pub stamp : Time
  pub frame_id : List ℕ

unfoldable pub size : Header → ℕ
size m =
    add_size (add_size (add_size 0 (size_number 4 m.seq)) (size_message m.stamp))
      (size_string m.frame_id)

unfoldable pub hash : Header → ℕ × ℕ
hash m = (0x5c6e963f7b8b9afe, 0x9b53bcf470f873c6)

unfoldable pub serialize : Header → Out → Option Out
serialize m o =
    serialize_number 4 m.seq o >>= λ o. serialize_message m.stamp o >>= serialize_string m.frame_id

unfoldable pub deserialize : Header → Reader Header
unfolding then_read deserialize_number deserialize_message deserialize_string
deserialize m =
    then_read (deserialize_number 4 m.seq) (λ seq. record m { seq = seq })
      λ seq.
        then_read (deserialize_message m.stamp) (λ stamp. record m { seq = seq; stamp = stamp })
          λ stamp.
            then_read (deserialize_string m.frame_id)
              (λ frame_id. record { seq = seq; stamp = stamp; frame_id = frame_id })
              λ frame_id s o. done (record { seq = seq; stamp = stamp; frame_id = frame_id }) o

instance abbrev pub header_message : Message Header
header_message = record {
  init = record { seq = 0; stamp = time_message.init; frame_id = [] };
  size = size;
  hash = hash;
  serialize = serialize;
  deserialize = deserialize;
}

abbrev pub wire : Header → List ℕ
wire m = to_bytes 4 m.seq ++ (Time.wire m.stamp ++ wire_string m.frame_id)

-- The encoding must be shorter than 2 ^ 32 bytes with the 12 bytes of a Twist2D behind it.
abbrev pub Fits : Header → Type 0
Fits m = (m.seq < 2 ^ 32) × Time.Fits m.stamp × (length m.frame_id + 28 < 2 ^ 32)

pub length-wire : (m : Header) → length (wire m) ≡ 16 + length m.frame_id
length-wire m = omega (
  arith,
  length-append (to_bytes 4 m.seq) (Time.wire m.stamp ++ wire_string m.frame_id),
  length-append (Time.wire m.stamp) (wire_string m.frame_id),
  length-to_bytes 4 m.seq,
  Time.length-wire m.stamp,
  length-wire_string m.frame_id,
)

size-wire : (m : Header) → Fits m → size m ≡ length (wire m)
unfolding size
size-wire m h = omega (
  arith,
  length-wire m,
  size_number-length 4 m.seq (omega arith),
  length-to_bytes 4 m.seq,
  size_message-length Time.wire Time.Fits time-IsCodec m.stamp h.1,
  Time.length-wire m.stamp,
  size_string-length m.frame_id (omega arith),
  length-wire_string m.frame_id,
)

serialize-wire : (m : Header) (o : Out) → Fits m → serialize m o ≡ write (wire m) o
unfolding serialize
serialize-wire m o h =
    write_then (serialize_number 4 m.seq) _ _ _ o (serialize_number-wire 4 m.seq o) λ o.
      write_then (serialize_message m.stamp) (serialize_string m.frame_id) _ _ o
        (serialize_message-wire Time.wire Time.Fits time-IsCodec m.stamp o h.1)
        λ o. serialize_string-wire m.frame_id o (omega arith)

deserialize-wire : (m old : Header) → Fits m → Decodes (deserialize old) m (wire m)
unfolding deserialize
deserialize-wire m old h =
    then_read-Decodes (deserialize_number 4 old.seq) _ _ m.seq m _ _
      (deserialize_number-Decodes 4 old.seq m.seq (omega arith) (omega arith))
      (then_read-Decodes (deserialize_message old.stamp) _ _ m.stamp m _ _
        (deserialize_message-Decodes Time.wire Time.Fits time-IsCodec old.stamp m.stamp h.1)
        (last-Decodes (deserialize_string old.frame_id) _
          (λ frame_id. record { seq = m.seq; stamp = m.stamp; frame_id = frame_id }) m.frame_id _
          (deserialize_string-Decodes old.frame_id m.frame_id (omega arith))))

deserialize-IsBounded : (old : Header) → IsBounded (deserialize old)
unfolding deserialize
deserialize-IsBounded old =
    then_read-IsBounded (deserialize_number 4 old.seq) _ _
      (deserialize_number-IsBounded 4 old.seq (omega arith))
      λ seq.
        then_read-IsBounded (deserialize_message old.stamp) _ _
          (deserialize_message-IsBounded time-IsCodec.deserialize-IsBounded old.stamp)
          λ stamp.
            last-IsBounded (deserialize_string old.frame_id) _ _
              (deserialize_string-IsBounded old.frame_id)

-- The class keeps the contract of a message over its encoding.
pub header-IsCodec : IsCodec header_message wire Fits
header-IsCodec = record {
  short_wire = λ m h. omega (arith, length-wire m);
  size-wire = size-wire;
  serialize-wire = serialize-wire;
  deserialize-wire = deserialize-wire;
  deserialize-IsBounded = deserialize-IsBounded;
}
