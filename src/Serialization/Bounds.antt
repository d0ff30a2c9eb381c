-- ===== src/Serialization/Bounds.antt =====
-- The `deserialize_` functions of include/rix/msg/serialization.hpp on any bytes at all.
use rob320_p.Base.{
  ℕ, ◌+◌, ◌*◌, ◌≤◌, ◌^◌, ◌≡◌, ◌<◌, List, [], ◌∷◌, length, All, drop, ltb, arith, Bool-cases, ltb→lt,
  lt→ltb, le→ltb, All-take, take, length-take, ltb→le, inl, inr, length-drop, All-drop, of_bytes,
  of_bytes-lt, IsByte,
}
use mathlib.Core.Path.{subst}
use rob320_p.Memory.{Src, failed, done, Reader, read_at, then_read, IsSized, add_size, mul_size}
use rob320_p.Memory.Copy.{first-take}
use rob320_p.Memory.Readers.{
  Within, IsBounded, Yields, then-Yields-IsBounded, then_read-IsBounded, done-IsBounded,
}
use rob320_p.Message.{Message}
use rob320_p.Serialization.Deserialize.{
  copy_in, deserialize_number, deserialize_string, deserialize_message, deserialize_number_array,
  numbers_of, deserialize_each, deserialize_string_array, deserialize_message_array,
  deserialize_number_vector, deserialize_string_vector, deserialize_message_vector,
}

no_wrap : (s : Src) (o n : ℕ) → IsSized s → o ≤ s.size → n < 2 ^ 36 → add_size o n ≡ o + n
no_wrap s o n z h l = omega (arith, z.clear)

-- The bytes of a range.
abbrev pub range : Src → ℕ → ℕ → List ℕ
range s o n = take n (drop o s.bytes)

module _ {ℓ} {A : Type ℓ} (dst : A) (n : ℕ) (value : List ℕ → A) (s : Src) (o : ℕ) where
  -- A range within the size is copied, and any other is refused with nothing changed.
  pub copy_in_inside :
      IsSized s
      → o + n ≤ s.size
      → n < 2 ^ 36
      → copy_in dst n value s o ≡ done (value (range s o n)) (o + n)
  unfolding copy_in read_at
  copy_in_inside z h l = rw (
    no_wrap s o n z (omega arith) l,
    le→ltb s.size (o + n) h,
    first-take n (drop o s.bytes) (omega (arith, length-drop o s.bytes, z.held)),
  )

  pub copy_in_outside :
      IsSized s → o ≤ s.size → s.size < o + n → n < 2 ^ 36 → copy_in dst n value s o ≡ failed dst o
  unfolding copy_in
  copy_in_outside z h g l = rw (no_wrap s o n z h l, lt→ltb s.size (o + n) g)

  copy_Within : IsSized s → o ≤ s.size → n < 2 ^ 36 → Within o s.size (copy_in dst n value s o)
  copy_Within z h l = elim (Bool-cases (ltb s.size (o + n))) [
    | inl out ↦ rw (copy_in_outside z h (ltb→lt _ _ out) l) (omega arith)
    | inr fit ↦ rw (copy_in_inside z (ltb→le _ _ fit) l) (omega (arith, ltb→le _ _ fit))
  ]

  copied :
      (P : A → Type 0) (a : A) (o' : ℕ)
      → ((bs : List ℕ) → length bs ≡ n → All IsByte bs → P (value bs))
      → IsSized s
      → o ≤ s.size
      → n < 2 ^ 36
      → copy_in dst n value s o ≡ done a o'
      → P a
  copied P a o' p z h l e = elim (Bool-cases (ltb s.size (o + n))) [
    | inl out ↦ cc (copy_in_outside z h (ltb→lt _ _ out) l)
    | inr fit ↦
        let read = copy_in_inside z (ltb→le _ _ fit) l in
        let same : value (range s o n) ≡ a = cc (read, e) in
        subst P same (
          p (range s o n)
            (omega (
              arith,
              length-take n (drop o s.bytes),
              length-drop o s.bytes,
              ltb→le _ _ fit,
              z.held,
            ))
            (All-take IsByte n _ (All-drop IsByte o s.bytes z.are_bytes)))
  ]

module _ {ℓ} {A : Type ℓ} (dst : A) (n : ℕ) (value : List ℕ → A) where
  pub copy_in-IsBounded : n < 2 ^ 36 → IsBounded (copy_in dst n value)
  copy_in-IsBounded l = record { within = λ s o z h. copy_Within dst n value s o z h l }

  copy_in-Yields :
      (P : A → Type 0)
      → n < 2 ^ 36
      → ((bs : List ℕ) → length bs ≡ n → All IsByte bs → P (value bs))
      → Yields P (copy_in dst n value)
  copy_in-Yields P l p = record {
    yields = λ s o o' a z h e. copied dst n value s o P a o' p z h l e;
  }

abbrev IsU32 : ℕ → Type 0
IsU32 n = n < 2 ^ 32

count-Yields : (old : ℕ) → Yields IsU32 (deserialize_number 4 old)
unfolding deserialize_number
count-Yields old =
    copy_in-Yields old 4 of_bytes IsU32 (omega arith)
      λ bs e h. subst (λ k. of_bytes bs < 256 ^ k) e (of_bytes-lt bs h)

pub deserialize_number-IsBounded : (w old : ℕ) → w ≤ 8 → IsBounded (deserialize_number w old)
unfolding deserialize_number
deserialize_number-IsBounded w old h = copy_in-IsBounded old w of_bytes (omega arith)

-- What follows a count of four bytes may rely on the count to be a uint32_t.
counted-IsBounded {ℓ} :
    {A : Type ℓ} (back : ℕ → A) (k : ℕ → Reader A)
    → ((n : ℕ) → IsU32 n → IsBounded (k n))
    → IsBounded (then_read (deserialize_number 4 0) back k)
counted-IsBounded back k h =
    then-Yields-IsBounded (deserialize_number 4 0) back k (count-Yields 0)
      (deserialize_number-IsBounded 4 0 (omega arith)) h

pub deserialize_string-IsBounded : (old : List ℕ) → IsBounded (deserialize_string old)
unfolding deserialize_string
deserialize_string-IsBounded old =
    counted-IsBounded _ _ λ len h. copy_in-IsBounded old len (λ bs. bs) (omega arith)

pub deserialize_number_array-IsBounded :
    (w : ℕ) (old : List ℕ) → length old * w < 2 ^ 36 → IsBounded (deserialize_number_array w old)
unfolding deserialize_number_array
deserialize_number_array-IsBounded w old h =
    copy_in-IsBounded old (mul_size (length old) w) (numbers_of w (length old)) (omega arith)

pub deserialize_each-IsBounded {ℓ} :
    {A : Type ℓ} (get : A → Reader A)
    → ((old : A) → IsBounded (get old))
    → (old : List A) → IsBounded (deserialize_each get old)
unfolding deserialize_each
deserialize_each-IsBounded get h [] = done-IsBounded []
deserialize_each-IsBounded get h (d ∷ old) = then_read-IsBounded (get d) _ _ (h d) λ x.
    then_read-IsBounded (deserialize_each get old) _ _ (deserialize_each-IsBounded get h old)
      λ xs. done-IsBounded (x ∷ xs)

pub deserialize_string_array-IsBounded :
    (old : List (List ℕ)) → IsBounded (deserialize_string_array old)
unfolding deserialize_string_array
deserialize_string_array-IsBounded =
    deserialize_each-IsBounded deserialize_string deserialize_string-IsBounded

-- A uint32_t times the size of a number does not wrap.
product_small : (n w : ℕ) → IsU32 n → w ≤ 8 → mul_size n w < 2 ^ 36
product_small n w l h = let bound : n * w ≤ n * 8 = grind arith in omega arith

-- Of numbers of up to eight bytes, whatever the count that the source claims.
pub deserialize_number_vector-IsBounded :
    (w : ℕ) (old : List ℕ) → w ≤ 8 → IsBounded (deserialize_number_vector w old)
unfolding deserialize_number_vector
deserialize_number_vector-IsBounded w old h =
    counted-IsBounded _ _
      λ n l. copy_in-IsBounded old (mul_size n w) (numbers_of w n) (product_small n w l h)

pub deserialize_string_vector-IsBounded :
    (old : List (List ℕ)) → IsBounded (deserialize_string_vector old)
unfolding deserialize_string_vector
deserialize_string_vector-IsBounded old =
    counted-IsBounded _ _
      λ n l. deserialize_each-IsBounded deserialize_string deserialize_string-IsBounded _

module _ {A : Type 0} ⦃m : Message A⦄ (bounded : (old : A) → IsBounded (m.deserialize old)) where
  pub deserialize_message-IsBounded : (old : A) → IsBounded (deserialize_message old)
  unfolding deserialize_message
  deserialize_message-IsBounded = bounded

  pub deserialize_message_array-IsBounded :
      (old : List A) → IsBounded (deserialize_message_array old)
  unfolding deserialize_message_array
  deserialize_message_array-IsBounded =
      deserialize_each-IsBounded deserialize_message deserialize_message-IsBounded

  pub deserialize_message_vector-IsBounded :
      (old : List A) → IsBounded (deserialize_message_vector old)
  unfolding deserialize_message_vector
  deserialize_message_vector-IsBounded old =
      counted-IsBounded _ _
        λ n l. deserialize_each-IsBounded deserialize_message deserialize_message-IsBounded _
