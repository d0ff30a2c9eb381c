-- ===== src/Serialization/Size.antt =====
-- The `size_` functions of include/rix/msg/serialization.hpp. Each returns a uint32_t.
use rob320_p.Base.{ℕ, ◌+◌, List, [], ◌∷◌, length}
use rob320_p.Memory.{add_size, mul_size, to_u32}
use rob320_p.Message.{Message}

unfoldable pub size_number : ℕ → ℕ → ℕ
size_number w src = to_u32 w

unfoldable pub size_string : List ℕ → ℕ
size_string src = to_u32 (add_size 4 (length src))

unfoldable pub size_message : {A : Type 0} ⦃m : Message A⦄ → A → ℕ
size_message ⦃m⦄ src = to_u32 (m.size src)

unfoldable pub size_number_array : ℕ → List ℕ → ℕ
size_number_array w src = to_u32 (mul_size (length src) w)

-- `for (const auto &s : src) size += size_of(s);`, on a uint32_t
unfoldable pub add_sizes {ℓ} : {A : Type ℓ} → (A → ℕ) → List A → ℕ → ℕ
add_sizes size_of [] size = size
add_sizes size_of (s ∷ src) size = add_sizes size_of src (to_u32 (size + size_of s))

unfoldable pub size_string_array : List (List ℕ) → ℕ
unfolding add_sizes
size_string_array src = add_sizes size_string src 0

unfoldable pub size_message_array : {A : Type 0} ⦃m : Message A⦄ → List A → ℕ
unfolding add_sizes
size_message_array src = add_sizes size_message src 0

unfoldable pub size_number_vector : ℕ → List ℕ → ℕ
size_number_vector w src = to_u32 (add_size 4 (mul_size (length src) w))

unfoldable pub size_string_vector : List (List ℕ) → ℕ
unfolding add_sizes
size_string_vector src = add_sizes size_string src 4

unfoldable pub size_message_vector : {A : Type 0} ⦃m : Message A⦄ → List A → ℕ
unfolding add_sizes
size_message_vector src = add_sizes size_message src 4
