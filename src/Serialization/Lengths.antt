-- ===== src/Serialization/Lengths.antt =====
-- The `size_` functions of include/rix/msg/serialization.hpp against the encodings of Layout.
use rob320_p.Base.{
  ℕ, ◌+◌, ◌*◌, ◌^◌, ◌≡◌, ◌<◌, List, [], ◌∷◌, length, All, arith, concat, length-append,
  length-to_bytes, to_bytes, ◌∙◌,
}
use rob320_p.Memory.{to_u32}
use rob320_p.Message.{Message, IsCodec}
use rob320_p.Serialization.Size.{
  size_number, size_string, size_message, size_number_array, add_sizes, size_string_array,
  size_message_array, size_number_vector, size_string_vector, size_message_vector,
}
use rob320_p.Serialization.Serialize.{number_bytes}
use rob320_p.Serialization.Layout.{counted, wire_string, FitsString, length-number_bytes}

pub size_number-length : (w n : ℕ) → w < 2 ^ 32 → size_number w n ≡ length (to_bytes w n)
unfolding size_number
size_number-length w n h = omega (arith, length-to_bytes w n)

pub length-wire_string : (a : List ℕ) → length (wire_string a) ≡ 4 + length a
length-wire_string a =
    omega (arith, length-append (to_bytes 4 (length a)) a, length-to_bytes 4 (length a))

pub size_string-length : (a : List ℕ) → FitsString a → size_string a ≡ length (wire_string a)
unfolding size_string
size_string-length a h = omega (arith, length-wire_string a)

pub size_number_array-length :
    (w : ℕ) (src : List ℕ)
    → length src * w < 2 ^ 32
    → size_number_array w src ≡ length (number_bytes w src)
unfolding size_number_array
size_number_array-length w src h = omega (arith, length-number_bytes w src)

pub length-counted {ℓ} :
    {A : Type ℓ} (wire : A → List ℕ) (src : List A)
    → length (counted wire src) ≡ 4 + length (concat wire src)
length-counted wire src = omega (
  arith,
  length-append (to_bytes 4 (length src)) (concat wire src),
  length-to_bytes 4 (length src),
)

pub size_number_vector-length :
    (w : ℕ) (src : List ℕ)
    → 4 + length src * w < 2 ^ 32
    → size_number_vector w src ≡ length (counted (to_bytes w) src)
unfolding size_number_vector number_bytes
size_number_vector-length w src h =
    omega (arith, length-counted (to_bytes w) src, length-number_bytes w src)

module _ {ℓ} {A : Type ℓ} (Fits : A → Type 0) (size_of : A → ℕ) (wire : A → List ℕ)
    (size_of-length : (a : A) → Fits a → size_of a ≡ length (wire a)) where
  -- The running sum of uint32_t is exact while the whole encoding stays below 2 ^ 32 bytes.
  pub add_sizes-length :
      (src : List A) (n : ℕ)
      → n + length (concat wire src) < 2 ^ 32
      → All Fits src
      → add_sizes size_of src n ≡ n + length (concat wire src)
  unfolding add_sizes
  add_sizes-length [] n h f = omega arith
  add_sizes-length (s ∷ src) n h f =
      let parts = length-append (wire s) (concat wire src) in
      let exact : to_u32 (n + size_of s) ≡ n + length (wire s) =
        omega (arith, size_of-length s f.0, parts) in
      rw exact (
        add_sizes-length src (n + length (wire s)) (omega (arith, parts)) f.1
        ∙ omega (arith, parts))

pub size_string_array-length :
    (src : List (List ℕ))
    → length (concat wire_string src) < 2 ^ 32
    → All FitsString src
    → size_string_array src ≡ length (concat wire_string src)
unfolding size_string_array
size_string_array-length src h f =
    add_sizes-length FitsString size_string wire_string size_string-length src 0 (omega arith) f
    ∙ omega arith

pub size_string_vector-length :
    (src : List (List ℕ))
    → length (counted wire_string src) < 2 ^ 32
    → All FitsString src
    → size_string_vector src ≡ length (counted wire_string src)
unfolding size_string_vector
size_string_vector-length src h f =
    add_sizes-length FitsString size_string wire_string size_string-length src 4
      (omega (arith, length-counted wire_string src)) f
    ∙ omega (arith, length-counted wire_string src)

module _ {A : Type 0} ⦃m : Message A⦄ (wire : A → List ℕ) (Fits : A → Type 0)
    (codec : IsCodec m wire Fits) where
  pub size_message-length : (a : A) → Fits a → size_message a ≡ length (wire a)
  unfolding size_message
  size_message-length a h = omega (arith, codec.size-wire a h, codec.short_wire a h)

  pub size_message_array-length :
      (src : List A)
      → length (concat wire src) < 2 ^ 32
      → All Fits src
      → size_message_array src ≡ length (concat wire src)
  unfolding size_message_array
  size_message_array-length src h f =
      add_sizes-length Fits size_message wire size_message-length src 0 (omega arith) f
      ∙ omega arith

  pub size_message_vector-length :
      (src : List A)
      → length (counted wire src) < 2 ^ 32
      → All Fits src
      → size_message_vector src ≡ length (counted wire src)
  unfolding size_message_vector
  size_message_vector-length src h f =
      add_sizes-length Fits size_message wire size_message-length src 4
        (omega (arith, length-counted wire src)) f
      ∙ omega (arith, length-counted wire src)
