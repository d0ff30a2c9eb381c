-- ===== src/Messages/Twist2D.antt =====
-- include/rix/msg/geometry/Twist2D.hpp
use rob320_p.Base.{
  ℕ, ◌≡◌, ◌<◌, ◌^◌, List, ◌++◌, Option, ◌>>=◌, to_bytes, arith, length, length-append,
  length-to_bytes,
}
use rob320_p.Memory.{Out, Reader, done, then_read, add_size, write}
use rob320_p.Memory.Copy.{write_then}
use rob320_p.Memory.Readers.{
  Decodes, IsBounded, then_read-Decodes, then_read-IsBounded, last-Decodes, last-IsBounded,
}
use rob320_p.Message.{Message, IsCodec}
use rob320_p.Serialization.Size.{size_number}
use rob320_p.Serialization.Serialize.{serialize_number}
use rob320_p.Serialization.Deserialize.{deserialize_number}
use rob320_p.Serialization.Layout.{serialize_number-wire}
use rob320_p.Serialization.Bounds.{deserialize_number-IsBounded}
use rob320_p.Serialization.RoundTrip.{deserialize_number-Decodes}

pub record Twist2D : Type 0 where
  pub vx : ℕ
  pub vy : ℕ
  pub wz : ℕ

unfoldable pub size : Twist2D → ℕ
size t =
    add_size (add_size (add_size 0 (size_number 4 t.vx)) (size_number 4 t.vy)) (size_number 4 t.wz)

unfoldable pub hash : Twist2D → ℕ × ℕ
hash t = (0x5b9303e27c7b02c0, 0x761ea21c80ce8d68)

unfoldable pub serialize : Twist2D → Out → Option Out
serialize t o =
    serialize_number 4 t.vx o >>= λ o. serialize_number 4 t.vy o >>= serialize_number 4 t.wz

unfoldable pub deserialize : Twist2D → Reader Twist2D
unfolding then_read deserialize_number
deserialize t =
    then_read (deserialize_number 4 t.vx) (λ vx. record t { vx = vx })
      λ vx.
        then_read (deserialize_number 4 t.vy) (λ vy. record t { vx = vx; vy = vy })
          λ vy.
            then_read (deserialize_number 4 t.wz) (λ wz. record { vx = vx; vy = vy; wz = wz })
              λ wz s o. done (record { vx = vx; vy = vy; wz = wz }) o

instance abbrev pub twist_message : Message Twist2D
twist_message = record {
  init = record { vx = 0; vy = 0; wz = 0 };
  size = size;
  hash = hash;
  serialize = serialize;
  deserialize = deserialize;
}

abbrev pub wire : Twist2D → List ℕ
wire t = to_bytes 4 t.vx ++ (to_bytes 4 t.vy ++ to_bytes 4 t.wz)

abbrev pub Fits : Twist2D → Type 0
Fits t = (t.vx < 2 ^ 32) × (t.vy < 2 ^ 32) × (t.wz < 2 ^ 32)

pub length-wire : (t : Twist2D) → length (wire t) ≡ 12
length-wire t = omega (
  arith,
  length-append (to_bytes 4 t.vx) (to_bytes 4 t.vy ++ to_bytes 4 t.wz),
  length-append (to_bytes 4 t.vy) (to_bytes 4 t.wz),
  length-to_bytes 4 t.vx,
  length-to_bytes 4 t.vy,
  length-to_bytes 4 t.wz,
)

size-wire : (t : Twist2D) → size t ≡ length (wire t)
unfolding size size_number
size-wire t = omega (arith, length-wire t)

serialize-wire : (t : Twist2D) (o : Out) → serialize t o ≡ write (wire t) o
unfolding serialize
serialize-wire t o =
    write_then (serialize_number 4 t.vx) _ _ _ o (serialize_number-wire 4 t.vx o) λ o.
      write_then (serialize_number 4 t.vy) (serialize_number 4 t.wz) _ _ o
        (serialize_number-wire 4 t.vy o) (serialize_number-wire 4 t.wz)

deserialize-wire : (t old : Twist2D) → Fits t → Decodes (deserialize old) t (wire t)
unfolding deserialize
deserialize-wire t old h =
    then_read-Decodes (deserialize_number 4 old.vx) _ _ t.vx t _ _
      (deserialize_number-Decodes 4 old.vx t.vx (omega arith) (omega arith))
      (then_read-Decodes (deserialize_number 4 old.vy) _ _ t.vy t _ _
        (deserialize_number-Decodes 4 old.vy t.vy (omega arith) (omega arith))
        (last-Decodes (deserialize_number 4 old.wz) _
          (λ wz. record { vx = t.vx; vy = t.vy; wz = wz }) t.wz _
          (deserialize_number-Decodes 4 old.wz t.wz (omega arith) (omega arith))))

deserialize-IsBounded : (old : Twist2D) → IsBounded (deserialize old)
unfolding deserialize
deserialize-IsBounded old =
    then_read-IsBounded (deserialize_number 4 old.vx) _ _
      (deserialize_number-IsBounded 4 old.vx (omega arith))
      λ vx.
        then_read-IsBounded (deserialize_number 4 old.vy) _ _
          (deserialize_number-IsBounded 4 old.vy (omega arith))
          λ vy.
            last-IsBounded (deserialize_number 4 old.wz) _ _
              (deserialize_number-IsBounded 4 old.wz (omega arith))

-- The class keeps the contract of a message over its encoding.
pub twist-IsCodec : IsCodec twist_message wire Fits
twist-IsCodec = record {
  short_wire = λ t h. omega (arith, length-wire t);
  size-wire = λ t h. size-wire t;
  serialize-wire = λ t o h. serialize-wire t o;
  deserialize-wire = deserialize-wire;
  deserialize-IsBounded = deserialize-IsBounded;
}
