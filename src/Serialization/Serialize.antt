-- ===== src/Serialization/Serialize.antt =====
-- The `serialize_` functions of include/rix/msg/serialization.hpp.
use rob320_p.Base.{
  ℕ, List, [], ◌∷◌, Option, some, length, take, concat, ltb, if◌then◌else◌, ◌>>=◌, to_bytes,
}
use rob320_p.Memory.{Out, write, to_u32}
use rob320_p.Message.{Message}

unfoldable pub serialize_number : ℕ → ℕ → Out → Option Out
serialize_number w src o = write (to_bytes w src) o

unfoldable pub serialize_string : List ℕ → Out → Option Out
unfolding serialize_number
serialize_string src o =
    let len = to_u32 (length src) in
    serialize_number 4 len o >>= λ o. if ltb 0 len then write (take len src) o else some o

unfoldable pub serialize_message : {A : Type 0} ⦃m : Message A⦄ → A → Out → Option Out
serialize_message ⦃m⦄ src o = m.serialize src o

-- The elements of an array as they lie in memory.
unfoldable pub number_bytes : ℕ → List ℕ → List ℕ
number_bytes w src = concat (to_bytes w) src

unfoldable pub serialize_number_array : ℕ → List ℕ → Out → Option Out
unfolding number_bytes
serialize_number_array w src o = if ltb 0 (length src) then write (number_bytes w src) o else some o

-- `for (const auto &s : src) put(dst, offset, s);`
unfoldable pub serialize_each {ℓ} :
    {A : Type ℓ} → (A → Out → Option Out) → List A → Out → Option Out
serialize_each put [] o = some o
serialize_each put (s ∷ src) o = put s o >>= serialize_each put src

unfoldable pub serialize_string_array : List (List ℕ) → Out → Option Out
unfolding serialize_each
serialize_string_array src o = serialize_each serialize_string src o

unfoldable pub serialize_message_array : {A : Type 0} ⦃m : Message A⦄ → List A → Out → Option Out
unfolding serialize_each
serialize_message_array src o = serialize_each serialize_message src o

unfoldable pub serialize_number_vector : ℕ → List ℕ → Out → Option Out
unfolding serialize_number number_bytes
serialize_number_vector w src o =
    let count = to_u32 (length src) in
    serialize_number 4 count o >>= λ o.
    if ltb 0 count then write (number_bytes w (take count src)) o else some o

unfoldable pub serialize_string_vector : List (List ℕ) → Out → Option Out
unfolding serialize_number serialize_each
serialize_string_vector src o =
    serialize_number 4 (to_u32 (length src)) o >>= serialize_each serialize_string src

unfoldable pub serialize_message_vector : {A : Type 0} ⦃m : Message A⦄ → List A → Out → Option Out
unfolding serialize_number serialize_each
serialize_message_vector src o =
    serialize_number 4 (to_u32 (length src)) o >>= serialize_each serialize_message src
