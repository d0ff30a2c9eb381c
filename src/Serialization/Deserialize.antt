-- ===== src/Serialization/Deserialize.antt =====
-- The `deserialize_` functions of include/rix/msg/serialization.hpp. The first argument is the
-- destination before the call.
use rob320_p.Base.{
  ℕ, zero, suc, ◌+◌, List, [], ◌∷◌, none, some, length, take, drop, replicate, ltb, if◌then◌else◌,
  of_bytes,
}
use rob320_p.Memory.{fault, failed, done, Reader, read_at, then_read, add_size, mul_size}
use rob320_p.Message.{Message}

-- `if (offset + n > size) return false;`, a copy of `n` bytes, and `offset += n`.
unfoldable pub copy_in {ℓ} : {A : Type ℓ} → A → ℕ → (List ℕ → A) → Reader A
copy_in dst n value s offset =
    if ltb s.size (add_size offset n)
    then failed dst offset
    else elim (read_at s offset n) [ none ↦ fault | some bs ↦ done (value bs) (offset + n) ]

unfoldable pub deserialize_number : ℕ → ℕ → Reader ℕ
unfolding copy_in
deserialize_number w dst = copy_in dst w of_bytes

unfoldable pub deserialize_string : List ℕ → Reader (List ℕ)
unfolding copy_in deserialize_number then_read
deserialize_string dst =
    then_read (deserialize_number 4 0) (λ len. dst) λ len. copy_in dst len (λ bs. bs)

unfoldable pub deserialize_message : {A : Type 0} ⦃m : Message A⦄ → A → Reader A
deserialize_message ⦃m⦄ dst s offset = m.deserialize dst s offset

-- `n` elements out of the bytes of an array.
unfoldable pub numbers_of : ℕ → ℕ → List ℕ → List ℕ
numbers_of w zero bs = []
numbers_of w (suc n) bs = of_bytes (take w bs) ∷ numbers_of w n (drop w bs)

unfoldable pub deserialize_number_array : ℕ → List ℕ → Reader (List ℕ)
unfolding copy_in numbers_of
deserialize_number_array w dst = copy_in dst (mul_size (length dst) w) (numbers_of w (length dst))

-- `for (i = 0; i < N; ++i) if (!get(dst[i], src, size, offset)) return false;`
unfoldable pub deserialize_each {ℓ} : {A : Type ℓ} → (A → Reader A) → List A → Reader (List A)
unfolding then_read
deserialize_each get [] s offset = done [] offset
deserialize_each get (d ∷ dst) s offset =
    then_read (get d) (λ x. x ∷ dst)
      (λ x. then_read (deserialize_each get dst) (λ xs. x ∷ xs) λ xs s offset. done (x ∷ xs) offset)
      s offset

unfoldable pub deserialize_string_array : List (List ℕ) → Reader (List (List ℕ))
unfolding deserialize_each
deserialize_string_array dst = deserialize_each deserialize_string dst

unfoldable pub deserialize_message_array : {A : Type 0} ⦃m : Message A⦄ → List A → Reader (List A)
unfolding deserialize_each
deserialize_message_array dst = deserialize_each deserialize_message dst

unfoldable pub deserialize_number_vector : ℕ → List ℕ → Reader (List ℕ)
unfolding copy_in numbers_of deserialize_number then_read
deserialize_number_vector w dst =
    then_read (deserialize_number 4 0) (λ count. dst)
      λ count. copy_in dst (mul_size count w) (numbers_of w count)

-- `dst.clear(); dst.resize(count);` leaves `count` new elements.
unfoldable pub deserialize_string_vector : List (List ℕ) → Reader (List (List ℕ))
unfolding deserialize_number deserialize_each then_read
deserialize_string_vector dst =
    then_read (deserialize_number 4 0) (λ count. dst)
      λ count. deserialize_each deserialize_string (replicate count [])

unfoldable pub deserialize_message_vector : {A : Type 0} ⦃m : Message A⦄ → List A → Reader (List A)
unfolding deserialize_number deserialize_each then_read
deserialize_message_vector ⦃m⦄ dst =
    then_read (deserialize_number 4 0) (λ count. dst)
      λ count. deserialize_each deserialize_message (replicate count m.init)
