-- ===== src/Messages/Duration.antt =====
-- include/rix/msg/standard/Duration.hpp
use rob320_p.Base.{
  ℕ, ◌≡◌, ◌<◌, ◌^◌, List, ◌++◌, Option, ◌>>=◌, to_bytes, arith, length, length-append,
  length-to_bytes,
}
use rob320_p.Memory.{Out, Reader, done, then_read, add_size, write}
use rob320_p.Memory.Copy.{write_then}
use rob320_p.Memory.Readers.{
  Decodes, IsBounded, then_read-Decodes, then_read-IsBounded, last-Decodes, last-IsBounded,
}
use rob320_p.Message.{Message, IsCodec}
use rob320_p.Serialization.Size.{size_number}
use rob320_p.Serialization.Serialize.{serialize_number}
use rob320_p.Serialization.Deserialize.{deserialize_number}
use rob320_p.Serialization.Layout.{serialize_number-wire}
use rob320_p.Serialization.Lengths.{size_number-length}
use rob320_p.Serialization.Bounds.{deserialize_number-IsBounded}
use rob320_p.Serialization.RoundTrip.{deserialize_number-Decodes}

pub record Duration : Type 0 where
  pub sec : ℕ
  pub nsec : ℕ

unfoldable pub size : Duration → ℕ
size t = add_size (add_size 0 (size_number 4 t.sec)) (size_number 4 t.nsec)

unfoldable pub hash : Duration → ℕ × ℕ
hash t = (0x3cfabdd6930400b6, 0x2301ecce2a9d00f6)

unfoldable pub serialize : Duration → Out → Option Out
serialize t o = serialize_number 4 t.sec o >>= serialize_number 4 t.nsec

unfoldable pub deserialize : Duration → Reader Duration
unfolding then_read deserialize_number
deserialize t =
    then_read (deserialize_number 4 t.sec) (λ sec. record t { sec = sec })
      λ sec.
        then_read (deserialize_number 4 t.nsec) (λ nsec. record { sec = sec; nsec = nsec })
          λ nsec s o. done (record { sec = sec; nsec = nsec }) o

instance abbrev pub duration_message : Message Duration
duration_message = record {
  init = record { sec = 0; nsec = 0 };
  size = size;
  hash = hash;
  serialize = serialize;
  deserialize = deserialize;
}

abbrev pub wire : Duration → List ℕ
wire t = to_bytes 4 t.sec ++ to_bytes 4 t.nsec

abbrev pub Fits : Duration → Type 0
Fits t = (t.sec < 2 ^ 32) × (t.nsec < 2 ^ 32)

pub length-wire : (t : Duration) → length (wire t) ≡ 8
length-wire t = omega (
  arith,
  length-append (to_bytes 4 t.sec) (to_bytes 4 t.nsec),
  length-to_bytes 4 t.sec,
  length-to_bytes 4 t.nsec,
)

size-wire : (t : Duration) → size t ≡ length (wire t)
unfolding size
size-wire t = omega (
  arith,
  length-wire t,
  size_number-length 4 t.sec (omega arith),
  length-to_bytes 4 t.sec,
  size_number-length 4 t.nsec (omega arith),
  length-to_bytes 4 t.nsec,
)

serialize-wire : (t : Duration) (o : Out) → serialize t o ≡ write (wire t) o
unfolding serialize
serialize-wire t o =
    write_then (serialize_number 4 t.sec) (serialize_number 4 t.nsec) _ _ o
      (serialize_number-wire 4 t.sec o) (serialize_number-wire 4 t.nsec)

deserialize-wire : (t old : Duration) → Fits t → Decodes (deserialize old) t (wire t)
unfolding deserialize
deserialize-wire t old h =
    then_read-Decodes (deserialize_number 4 old.sec) _ _ t.sec t _ _
      (deserialize_number-Decodes 4 old.sec t.sec (omega arith) (omega arith))
      (last-Decodes (deserialize_number 4 old.nsec) _ (λ nsec. record { sec = t.sec; nsec = nsec })
        t.nsec _ (deserialize_number-Decodes 4 old.nsec t.nsec (omega arith) (omega arith)))

deserialize-IsBounded : (old : Duration) → IsBounded (deserialize old)
unfolding deserialize
deserialize-IsBounded old =
    then_read-IsBounded (deserialize_number 4 old.sec) _ _
      (deserialize_number-IsBounded 4 old.sec (omega arith))
      λ sec.
        last-IsBounded (deserialize_number 4 old.nsec) _ _
          (deserialize_number-IsBounded 4 old.nsec (omega arith))

-- The class keeps the contract of a message over its encoding.
pub duration-IsCodec : IsCodec duration_message wire Fits
duration-IsCodec = record {
  short_wire = λ t h. omega (arith, length-wire t);
  size-wire = λ t h. size-wire t;
  serialize-wire = λ t o h. serialize-wire t o;
  deserialize-wire = deserialize-wire;
  deserialize-IsBounded = deserialize-IsBounded;
}
