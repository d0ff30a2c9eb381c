-- ===== src/Serialization/Layout.antt =====
-- The layout of the encodings, as plain lists of bytes, and that the `serialize_` functions of
-- include/rix/msg/serialization.hpp write them.
use rob320_p.Base.{
  ℕ, ◌+◌, ◌*◌, ◌^◌, ◌≡◌, ◌<◌, List, [], ◌∷◌, ◌++◌, Option, some, length, take_all, All, concat, ltb,
  ltb_zero, if◌then◌else◌, ◌>>=◌, to_bytes, refl, length-append, length-to_bytes, arith,
}
use rob320_p.Memory.{Out, write, to_u32}
use rob320_p.Memory.Copy.{write_then}
use rob320_p.Message.{Message, IsCodec}
use rob320_p.Serialization.Serialize.{
  serialize_number, serialize_string, serialize_message, number_bytes, serialize_number_array,
  serialize_each, serialize_string_array, serialize_message_array, serialize_number_vector,
  serialize_string_vector, serialize_message_vector,
}

-- A length-prefixed sequence.
abbrev pub counted {ℓ} : {A : Type ℓ} → (A → List ℕ) → List A → List ℕ
counted wire src = to_bytes 4 (length src) ++ concat wire src

abbrev pub wire_string : List ℕ → List ℕ
wire_string src = to_bytes 4 (length src) ++ src

abbrev pub FitsString : List ℕ → Type 0
FitsString src = length src + 4 < 2 ^ 32

pub length-number_bytes : (w : ℕ) (src : List ℕ) → length (number_bytes w src) ≡ length src * w
unfolding number_bytes
length-number_bytes w [] = omega arith
length-number_bytes w (x ∷ src) = omega (
  arith,
  length-append (to_bytes w x) (concat (to_bytes w) src),
  length-to_bytes w x,
  length-number_bytes w src,
)

small_u32 : (n : ℕ) → n < 2 ^ 32 → to_u32 n ≡ n
small_u32 n h = omega arith

pub serialize_number-wire : (w n : ℕ) (o : Out) → serialize_number w n o ≡ write (to_bytes w n) o
unfolding serialize_number
serialize_number-wire w n o = refl

-- `if (len > 0) memcpy(...)` writes all of `src`.
write_rest :
    (src : List ℕ) (o : Out) → (if ltb 0 (length src) then write src o else some o) ≡ write src o
unfolding write
write_rest [] o = refl
write_rest (x ∷ src) o = rw (ltb_zero (length src))

-- A string is written as its length in four bytes, and then its bytes.
pub serialize_string-wire :
    (src : List ℕ) (o : Out)
    → length src < 2 ^ 32
    → serialize_string src o ≡ write (wire_string src) o
unfolding serialize_string
serialize_string-wire src o h =
    rw (small_u32 (length src) h, take_all (length src) src (omega arith))
      (write_then (serialize_number 4 (length src)) _ _ src o refl (write_rest src))

module _ {ℓ κ} {A : Type ℓ} (Fits : A → Type κ) (put : A → Out → Option Out) (wire : A → List ℕ)
    (put-wire : (a : A) (o : Out) → Fits a → put a o ≡ write (wire a) o) where
  pub serialize_each-wire :
      (src : List A) (o : Out) → All Fits src → serialize_each put src o ≡ write (concat wire src) o
  unfolding serialize_each write
  serialize_each-wire [] o h = refl
  serialize_each-wire (s ∷ src) o h =
      write_then (put s) (serialize_each put src) (wire s) (concat wire src) o (put-wire s o h.0)
        (λ o. serialize_each-wire src o h.1)

  pub counted-wire :
      (src : List A) (o : Out)
      → length src < 2 ^ 32
      → All Fits src
      → (serialize_number 4 (to_u32 (length src)) o >>= serialize_each put src)
        ≡ write (counted wire src) o
  counted-wire src o h f = rw (small_u32 (length src) h) (
      write_then (serialize_number 4 (length src)) (serialize_each put src) _ (concat wire src) o
        (serialize_number-wire 4 (length src) o) (λ o. serialize_each-wire src o f))

string-wire : (a : List ℕ) (o : Out) → FitsString a → serialize_string a o ≡ write (wire_string a) o
string-wire a o h = serialize_string-wire a o (omega arith)

pub serialize_string_vector-wire :
    (src : List (List ℕ)) (o : Out)
    → length src < 2 ^ 32
    → All FitsString src
    → serialize_string_vector src o ≡ write (counted wire_string src) o
unfolding serialize_string_vector
serialize_string_vector-wire = counted-wire FitsString serialize_string wire_string string-wire

pub serialize_string_array-wire :
    (src : List (List ℕ)) (o : Out)
    → All FitsString src
    → serialize_string_array src o ≡ write (concat wire_string src) o
unfolding serialize_string_array
serialize_string_array-wire =
    serialize_each-wire FitsString serialize_string wire_string string-wire

pub serialize_number_array-wire :
    (w : ℕ) (src : List ℕ) (o : Out) → serialize_number_array w src o ≡ write (number_bytes w src) o
unfolding serialize_number_array write
serialize_number_array-wire w [] o = refl
serialize_number_array-wire w (x ∷ src) o = rw (ltb_zero (length src))

pub serialize_number_vector-wire :
    (w : ℕ) (src : List ℕ) (o : Out)
    → length src < 2 ^ 32
    → serialize_number_vector w src o ≡ write (counted (to_bytes w) src) o
unfolding serialize_number_vector serialize_number_array
serialize_number_vector-wire w src o h =
    rw (small_u32 (length src) h, take_all (length src) src (omega arith))
      (write_then (serialize_number 4 (length src)) _ _ (concat (to_bytes w) src) o refl
        (serialize_number_array-wire w src))

module _ {A : Type 0} ⦃m : Message A⦄ (wire : A → List ℕ) (Fits : A → Type 0)
    (codec : IsCodec m wire Fits) where
  pub serialize_message-wire : (a : A) (o : Out) → Fits a → serialize_message a o ≡ write (wire a) o
  unfolding serialize_message
  serialize_message-wire = codec.serialize-wire

  pub serialize_message_array-wire :
      (src : List A) (o : Out)
      → All Fits src
      → serialize_message_array src o ≡ write (concat wire src) o
  unfolding serialize_message_array
  serialize_message_array-wire =
      serialize_each-wire Fits serialize_message wire serialize_message-wire

  pub serialize_message_vector-wire :
      (src : List A) (o : Out)
      → length src < 2 ^ 32
      → All Fits src
      → serialize_message_vector src o ≡ write (counted wire src) o
  unfolding serialize_message_vector
  serialize_message_vector-wire = counted-wire Fits serialize_message wire serialize_message-wire
