-- ===== src/Memory.antt =====
-- The memory that include/rix/msg/serialization.hpp works on: `uint8_t *dst` with `size_t &offset`,
-- and `const uint8_t *src` with `size_t size` and `size_t &offset`. A call of memcpy that leaves
-- its buffer is undefined behaviour in C++, and a fault here.
pub mod Copy
pub mod Readers
pub mod Delivery
use rob320_p.Base.{
  ℕ, zero, suc, ◌+◌, ◌*◌, ◌%◌, ◌^◌, ◌≤◌, ◌≡◌, ◌<◌, List, [], ◌∷◌, ◌++◌, Option, none, some, length,
  set, drop, All, IsByte, ltb, if◌then◌else◌,
}
use mathlib.Core.Option

-- A destination buffer, with the offset that each write moves on.
pub record Out : Type 0 where
  pub dst : List ℕ
  pub offset : ℕ

-- memcpy(dst + offset, bytes, n); offset += n. Nothing is touched where n is 0. A buffer has fewer
-- than 2 ^ 64 bytes, so that an offset within it does not wrap.
unfoldable pub write : List ℕ → Out → Option Out
write [] o = some o
write (b ∷ bs) o =
    if ltb o.offset (length o.dst)
    then write bs (record { dst = set o.dst o.offset b; offset = o.offset + 1 })
    else none

-- A source array, and the size that the caller claims for it.
pub record Src : Type 0 where
  pub bytes : List ℕ
  pub size : ℕ

-- What a `deserialize_` function leaves: its result, with `dst` and `offset` as they are then.
-- `fault` is a read outside of the source.
pub data Outcome {ℓ} (A : Type ℓ) : Type ℓ where
  fault : Outcome A
  failed : A → ℕ → Outcome A
  done : A → ℕ → Outcome A

abbrev pub Reader {ℓ} : Type ℓ → Type ℓ
Reader A = Src → ℕ → Outcome A

unfoldable pub first : ℕ → List ℕ → Option (List ℕ)
first zero bs = some []
first (suc n) [] = none
first (suc n) (b ∷ bs) = Option.map (◌∷◌ b) (first n bs)

-- memcpy(_, src + offset, n): the bytes that are copied.
unfoldable pub read_at : Src → ℕ → ℕ → Option (List ℕ)
unfolding first
read_at s offset n = first n (drop offset s.bytes)

-- `if (!f(b, src, size, offset)) return false;` and on with `k`. `back` is the destination as it
-- stands if `f` fails.
unfoldable pub then_read {ℓ κ} :
    {A : Type ℓ} {B : Type κ} → Reader B → (B → A) → (B → Reader A) → Reader A
then_read f back k s offset = elim (f s offset) [
  | fault ↦ fault
  | failed b o ↦ failed (back b) o
  | done b o ↦ k b s o
]

-- size_t sums and products, and the conversion to uint32_t.
abbrev pub add_size : ℕ → ℕ → ℕ
add_size a b = (a + b) % 2 ^ 64

abbrev pub mul_size : ℕ → ℕ → ℕ
mul_size a b = (a * b) % 2 ^ 64

abbrev pub to_u32 : ℕ → ℕ
to_u32 n = n % 2 ^ 32

-- A caller keeps to the documented contract: the array holds uint8_t, at least `size` of them, and
-- `size` stays clear of the end of the address space.
pub record IsSized (s : Src) : Type 0 where
  pub are_bytes : All IsByte s.bytes
  pub held : s.size ≤ length s.bytes
  pub clear : s.size + 2 ^ 36 ≤ 2 ^ 64
