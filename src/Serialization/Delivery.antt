-- ===== src/Serialization/Delivery.antt =====
-- The `size_`, `serialize_` and `deserialize_` functions of include/rix/msg/serialization.hpp together.
use rob320_p.Base.{
  ℕ, ◌+◌, ◌*◌, ◌≤◌, ◌≡◌, ◌<◌, ◌^◌, List, [], ◌∷◌, All, All-append, IsByte, length, arith, concat,
  to_bytes, to_bytes-IsByte,
}
use rob320_p.Memory.Delivery.{Delivered, IsBuffer, concat-AreBytes, written-Delivered}
use rob320_p.Message.{Message, IsCodec}
use rob320_p.Serialization.Size.{
  size_number, size_string, size_number_array, size_string_array, size_message_array,
  size_number_vector, size_string_vector, size_message_vector,
}
use rob320_p.Serialization.Serialize.{
  serialize_number, serialize_string, serialize_number_array, serialize_string_array,
  serialize_message_array, serialize_number_vector, serialize_string_vector,
  serialize_message_vector, number_bytes,
}
use rob320_p.Serialization.Deserialize.{
  deserialize_number, deserialize_string, deserialize_number_array, deserialize_string_array,
  deserialize_message_array, deserialize_number_vector, deserialize_string_vector,
  deserialize_message_vector,
}
use rob320_p.Serialization.Layout.{
  wire_string, counted, FitsString, serialize_number-wire, serialize_string-wire,
  serialize_number_array-wire, serialize_string_array-wire, serialize_message_array-wire,
  serialize_number_vector-wire, serialize_string_vector-wire, serialize_message_vector-wire,
}
use rob320_p.Serialization.Lengths.{
  size_number-length, size_string-length, size_number_array-length, size_string_array-length,
  size_message_array-length, size_number_vector-length, size_string_vector-length,
  size_message_vector-length,
}
use rob320_p.Serialization.RoundTrip.{
  deserialize_number-Decodes, deserialize_string-Decodes, deserialize_number_array-Decodes,
  deserialize_string_array-Decodes, deserialize_message_array-Decodes,
  deserialize_number_vector-Decodes, deserialize_string_vector-Decodes,
  deserialize_message_vector-Decodes,
}

numbers-AreBytes : (w : ℕ) (src : List ℕ) → All IsByte (number_bytes w src)
unfolding number_bytes
numbers-AreBytes w [] = tt
numbers-AreBytes w (x ∷ src) =
    All-append IsByte (to_bytes w x) _ (to_bytes-IsByte w x) (numbers-AreBytes w src)

counted-AreBytes {ℓ} :
    {A : Type ℓ} (wire : A → List ℕ) (src : List A)
    → All IsByte (concat wire src)
    → All IsByte (counted wire src)
counted-AreBytes wire src h =
    All-append IsByte (to_bytes 4 (length src)) _ (to_bytes-IsByte 4 (length src)) h

string-AreBytes : (src : List ℕ) → All IsByte src → All IsByte (wire_string src)
string-AreBytes src h =
    All-append IsByte (to_bytes 4 (length src)) src (to_bytes-IsByte 4 (length src)) h

strings-AreBytes :
    (src : List (List ℕ)) → All (All IsByte) src → All IsByte (concat wire_string src)
strings-AreBytes [] h = tt
strings-AreBytes (s ∷ src) h =
    All-append IsByte (wire_string s) _ (string-AreBytes s h.0) (strings-AreBytes src h.1)

-- In a buffer of bytes that is 2 ^ 36 short of the address space at least and that has room for it
-- behind the offset, serialize_number writes an arithmetic value of at most 8 bytes, in its range, and
-- moves the offset by size_number; deserialize_number from there gives the value back and moves the
-- offset as far.
pub number-Delivered :
    (w old n : ℕ) (dst : List ℕ) (i : ℕ)
    → w ≤ 8
    → n < 256 ^ w
    → IsBuffer dst
    → i + size_number w n ≤ length dst
    → Delivered (serialize_number w n) (deserialize_number w old) n dst i (size_number w n)
number-Delivered w old n dst i h l b fits =
    written-Delivered (serialize_number w n) _ n (to_bytes w n) dst i (size_number w n)
      (serialize_number-wire w n _) (deserialize_number-Decodes w old n h l) (to_bytes-IsByte w n)
      (size_number-length w n (omega arith)) b fits

-- In a buffer of bytes that is 2 ^ 36 short of the address space at least and that has room for it
-- behind the offset, serialize_string writes a string of bytes whose encoding is shorter than 2 ^ 32
-- and moves the offset by size_string; deserialize_string from there gives the value back and moves the
-- offset as far.
pub string-Delivered :
    (old src : List ℕ) (dst : List ℕ) (i : ℕ)
    → FitsString src
    → All IsByte src
    → IsBuffer dst
    → i + size_string src ≤ length dst
    → Delivered (serialize_string src) (deserialize_string old) src dst i (size_string src)
string-Delivered old src dst i f h b fits =
    written-Delivered (serialize_string src) _ src (wire_string src) dst i (size_string src)
      (serialize_string-wire src _ (omega arith)) (deserialize_string-Decodes old src (omega arith))
      (string-AreBytes src h) (size_string-length src f) b fits

-- In a buffer of bytes that is 2 ^ 36 short of the address space at least and that has room for it
-- behind the offset, serialize_string_array writes an array of strings of bytes, each and together
-- encoded in fewer than 2 ^ 32 bytes, and moves the offset by size_string_array;
-- deserialize_string_array from there into an array of the same length gives the value back and moves
-- the offset as far.
pub string_array-Delivered :
    (old src : List (List ℕ)) (dst : List ℕ) (i : ℕ)
    → length old ≡ length src
    → length (concat wire_string src) < 2 ^ 32
    → All FitsString src
    → All (All IsByte) src
    → IsBuffer dst
    → i + size_string_array src ≤ length dst
    → Delivered
        (serialize_string_array src)
        (deserialize_string_array old)
        src
        dst
        i
        (size_string_array src)
string_array-Delivered old src dst i same short f h b fits =
    written-Delivered (serialize_string_array src) _ src (concat wire_string src) dst i
      (size_string_array src) (serialize_string_array-wire src _ f)
      (deserialize_string_array-Decodes old src same f) (strings-AreBytes src h)
      (size_string_array-length src short f) b fits

-- In a buffer of bytes that is 2 ^ 36 short of the address space at least and that has room for it
-- behind the offset, serialize_string_vector writes a vector of fewer than 2 ^ 32 strings of bytes,
-- each and together encoded in fewer than 2 ^ 32 bytes, and moves the offset by size_string_vector;
-- deserialize_string_vector from there gives the value back and moves the offset as far.
string_vector-Delivered :
    (old src : List (List ℕ)) (dst : List ℕ) (i : ℕ)
    → length src < 2 ^ 32
    → length (counted wire_string src) < 2 ^ 32
    → All FitsString src
    → All (All IsByte) src
    → IsBuffer dst
    → i + size_string_vector src ≤ length dst
    → Delivered
        (serialize_string_vector src)
        (deserialize_string_vector old)
        src
        dst
        i
        (size_string_vector src)
string_vector-Delivered old src dst i l short f h b fits =
    written-Delivered (serialize_string_vector src) _ src (counted wire_string src) dst i
      (size_string_vector src) (serialize_string_vector-wire src _ l f)
      (deserialize_string_vector-Decodes old src l f)
      (counted-AreBytes wire_string src (strings-AreBytes src h))
      (size_string_vector-length src short f) b fits

module _ (w : ℕ) (src : List ℕ) (numbers : All (λ n. n < 256 ^ w) src) where
  -- In a buffer of bytes that is 2 ^ 36 short of the address space at least and that has room for it
  -- behind the offset, serialize_number_array writes an array of arithmetic values in their range, of
  -- fewer than 2 ^ 32 bytes together, and moves the offset by size_number_array;
  -- deserialize_number_array from there into an array of the same length gives the value back and moves
  -- the offset as far.
  pub number_array-Delivered :
      (old : List ℕ) (dst : List ℕ) (i : ℕ)
      → length old ≡ length src
      → length src * w < 2 ^ 32
      → IsBuffer dst
      → i + size_number_array w src ≤ length dst
      → Delivered
          (serialize_number_array w src)
          (deserialize_number_array w old)
          src
          dst
          i
          (size_number_array w src)
  number_array-Delivered old dst i same l b fits =
      written-Delivered (serialize_number_array w src) _ src (number_bytes w src) dst i
        (size_number_array w src) (serialize_number_array-wire w src _)
        (deserialize_number_array-Decodes w src (omega arith) numbers old same)
        (numbers-AreBytes w src) (size_number_array-length w src l) b fits

  -- In a buffer of bytes that is 2 ^ 36 short of the address space at least and that has room for it
  -- behind the offset, serialize_number_vector writes a vector of arithmetic values in their range, of
  -- fewer than 2 ^ 32 bytes with its count, and moves the offset by size_number_vector;
  -- deserialize_number_vector from there gives the value back and moves the offset as far.
  number_vector-Delivered :
      (old : List ℕ) (dst : List ℕ) (i : ℕ)
      → length src < 2 ^ 32
      → 4 + length src * w < 2 ^ 32
      → IsBuffer dst
      → i + size_number_vector w src ≤ length dst
      → Delivered
          (serialize_number_vector w src)
          (deserialize_number_vector w old)
          src
          dst
          i
          (size_number_vector w src)
  unfolding number_bytes
  number_vector-Delivered old dst i l short b fits =
      written-Delivered (serialize_number_vector w src) _ src (counted (to_bytes w) src) dst i
        (size_number_vector w src) (serialize_number_vector-wire w src _ l)
        (deserialize_number_vector-Decodes w src (omega arith) numbers old l)
        (counted-AreBytes (to_bytes w) src (numbers-AreBytes w src))
        (size_number_vector-length w src short) b fits

module _ {A : Type 0} ⦃m : Message A⦄ (wire : A → List ℕ) (Fits : A → Type 0)
    (codec : IsCodec m wire Fits) where
  -- In a buffer of bytes that is 2 ^ 36 short of the address space at least and that has room for it
  -- behind the offset, serialize_message_array writes an array of messages of a type that keeps the
  -- codec contract, that fit it and are encoded in bytes, fewer than 2 ^ 32 together, and moves the
  -- offset by size_message_array; deserialize_message_array from there into an array of the same length
  -- gives the value back and moves the offset as far.
  pub message_array-Delivered :
      (old src : List A) (dst : List ℕ) (i : ℕ)
      → length old ≡ length src
      → length (concat wire src) < 2 ^ 32
      → All Fits src
      → All (λ a. All IsByte (wire a)) src
      → IsBuffer dst
      → i + size_message_array src ≤ length dst
      → Delivered
          (serialize_message_array src)
          (deserialize_message_array old)
          src
          dst
          i
          (size_message_array src)
  message_array-Delivered old src dst i same short f h b fits =
      written-Delivered (serialize_message_array src) _ src (concat wire src) dst i
        (size_message_array src) (serialize_message_array-wire wire Fits codec src _ f)
        (deserialize_message_array-Decodes wire Fits codec old src same f)
        (concat-AreBytes wire src h) (size_message_array-length wire Fits codec src short f) b fits

  -- In a buffer of bytes that is 2 ^ 36 short of the address space at least and that has room for it
  -- behind the offset, serialize_message_vector writes a vector of fewer than 2 ^ 32 messages of a type
  -- that keeps the codec contract, that fit it and are encoded in bytes, fewer than 2 ^ 32 together,
  -- and moves the offset by size_message_vector; deserialize_message_vector from there gives the value
  -- back and moves the offset as far.
  pub message_vector-Delivered :
      (old src : List A) (dst : List ℕ) (i : ℕ)
      → length src < 2 ^ 32
      → length (counted wire src) < 2 ^ 32
      → All Fits src
      → All (λ a. All IsByte (wire a)) src
      → IsBuffer dst
      → i + size_message_vector src ≤ length dst
      → Delivered
          (serialize_message_vector src)
          (deserialize_message_vector old)
          src
          dst
          i
          (size_message_vector src)
  message_vector-Delivered old src dst i l short f h b fits =
      written-Delivered (serialize_message_vector src) _ src (counted wire src) dst i
        (size_message_vector src) (serialize_message_vector-wire wire Fits codec src _ l f)
        (deserialize_message_vector-Decodes wire Fits codec old src l f)
        (counted-AreBytes wire src (concat-AreBytes wire src h))
        (size_message_vector-length wire Fits codec src short f) b fits
