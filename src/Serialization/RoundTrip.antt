-- ===== src/Serialization/RoundTrip.antt =====
-- The `deserialize_` functions of include/rix/msg/serialization.hpp on the encodings of Layout.
use rob320_p.Base.{
  ℕ, ◌+◌, ◌*◌, ◌≤◌, ◌^◌, ◌≡◌, ◌<◌, List, [], ◌∷◌, ◌++◌, length, All, replicate, take, refl, ap, sym,
  ◌∙◌, arith, take-append, drop-append, append-nil, concat, length-replicate, length-to_bytes,
  of_bytes, to_bytes, of_bytes-to_bytes,
}
use mathlib.Core.Path.{subst}
use rob320_p.Memory.{done, Reader, then_read, mul_size}
use rob320_p.Memory.Readers.{Decodes, then_read-Decodes, done-Decodes}
use rob320_p.Message.{Message, IsCodec}
use rob320_p.Serialization.Layout.{counted, wire_string, FitsString, length-number_bytes}
use rob320_p.Serialization.Bounds.{range, copy_in_inside, copy_in_outside}
use rob320_p.Serialization.Serialize.{number_bytes}
use rob320_p.Serialization.Deserialize.{
  copy_in, deserialize_number, deserialize_string, deserialize_message, deserialize_number_array,
  numbers_of, deserialize_each, deserialize_string_array, deserialize_message_array,
  deserialize_number_vector, deserialize_string_vector, deserialize_message_vector,
}

copy_in-Decodes {ℓ} :
    {A : Type ℓ} (dst a : A) (n : ℕ) (value : List ℕ → A) (w : List ℕ)
    → n < 2 ^ 36
    → n ≡ length w
    → value w ≡ a
    → Decodes (copy_in dst n value) a w
copy_in-Decodes dst a n value w l e v = record {
  reads = λ s o rest z d h.
      let same : range s o n ≡ w = ap (take n) d ∙ take-append n w rest e in
      copy_in_inside dst n value s o z (omega arith) l ∙ rw (same, v) (ap (λ k. done a (o + k)) e);
  short = λ s o rest z d h g. rw (copy_in_outside dst n value s o z h (omega arith) l) tt;
}

abbrev IsNumber : ℕ → ℕ → Type 0
IsNumber w n = n < 256 ^ w

pub deserialize_number-Decodes :
    (w old n : ℕ) → w ≤ 8 → n < 256 ^ w → Decodes (deserialize_number w old) n (to_bytes w n)
unfolding deserialize_number
deserialize_number-Decodes w old n h l =
    copy_in-Decodes old n w of_bytes (to_bytes w n) (omega arith) (sym (length-to_bytes w n))
      (of_bytes-to_bytes w n l)

-- A count, and what it counts.
counted-Decodes {ℓ} :
    {A : Type ℓ} (back : ℕ → A) (k : ℕ → Reader A) (n : ℕ) (a : A) (w : List ℕ)
    → n < 2 ^ 32
    → Decodes (k n) a w
    → Decodes (then_read (deserialize_number 4 0) back k) a (to_bytes 4 n ++ w)
counted-Decodes back k n a w l h =
    then_read-Decodes (deserialize_number 4 0) back k n a (to_bytes 4 n) w
      (deserialize_number-Decodes 4 0 n (omega arith) (omega arith)) h

pub deserialize_string-Decodes :
    (old a : List ℕ) → length a < 2 ^ 32 → Decodes (deserialize_string old) a (wire_string a)
unfolding deserialize_string
deserialize_string-Decodes old a h =
    counted-Decodes _ _ (length a) a a h
      (copy_in-Decodes old a (length a) (λ bs. bs) a (omega arith) refl refl)

numbers_of-number_bytes :
    (w : ℕ) (src : List ℕ)
    → All (λ n. n < 256 ^ w) src
    → numbers_of w (length src) (number_bytes w src) ≡ src
unfolding numbers_of number_bytes
numbers_of-number_bytes w [] h = refl
numbers_of-number_bytes w (x ∷ src) h =
    let k = sym (length-to_bytes w x) in
    rw
      (
        take-append w (to_bytes w x) (concat (to_bytes w) src) k,
        drop-append w (to_bytes w x) (concat (to_bytes w) src) k,
        of_bytes-to_bytes w x h.0,
      )
      (ap (◌∷◌ x) (numbers_of-number_bytes w src h.1))

module _ (w : ℕ) (src : List ℕ) (small : length src * w < 2 ^ 36)
    (numbers : All (λ n. n < 256 ^ w) src) where
  numbers-Decodes :
      (dst : List ℕ) (n : ℕ)
      → n ≡ length src
      → Decodes (copy_in dst (mul_size n w) (numbers_of w n)) src (number_bytes w src)
  numbers-Decodes dst n e = rw e (
      copy_in-Decodes dst src (mul_size (length src) w) (numbers_of w (length src))
        (number_bytes w src) (omega arith) (omega (arith, length-number_bytes w src))
        (numbers_of-number_bytes w src numbers))

  pub deserialize_number_array-Decodes :
      (old : List ℕ)
      → length old ≡ length src
      → Decodes (deserialize_number_array w old) src (number_bytes w src)
  unfolding deserialize_number_array
  deserialize_number_array-Decodes old e = numbers-Decodes old (length old) e

  pub deserialize_number_vector-Decodes :
      (old : List ℕ)
      → length src < 2 ^ 32
      → Decodes (deserialize_number_vector w old) src (counted (to_bytes w) src)
  unfolding deserialize_number_vector number_bytes
  deserialize_number_vector-Decodes old h =
      counted-Decodes _ _ (length src) src (number_bytes w src) h
        (numbers-Decodes old (length src) refl)

module _ {ℓ} {A : Type ℓ} (Fits : A → Type 0) (get : A → Reader A) (wire : A → List ℕ)
    (get-Decodes : (old a : A) → Fits a → Decodes (get old) a (wire a)) where
  pub deserialize_each-Decodes :
      (old src : List A)
      → length old ≡ length src
      → All Fits src
      → Decodes (deserialize_each get old) src (concat wire src)
  unfolding deserialize_each
  deserialize_each-Decodes [] [] e h = done-Decodes []
  deserialize_each-Decodes [] (s ∷ src) e h = absurd (omega arith)
  deserialize_each-Decodes (d ∷ old) [] e h = absurd (omega arith)
  deserialize_each-Decodes (d ∷ old) (s ∷ src) e h =
      then_read-Decodes (get d) _ _ s (s ∷ src) (wire s) (concat wire src) (get-Decodes d s h.0) (
        subst (Decodes _ (s ∷ src)) (append-nil (concat wire src)) (
          then_read-Decodes (deserialize_each get old) _ _ src (s ∷ src) (concat wire src) []
            (deserialize_each-Decodes old src (omega arith) h.1) (done-Decodes (s ∷ src))))

  vector-Decodes :
      (back : ℕ → List A) (init : A) (src : List A)
      → length src < 2 ^ 32
      → All Fits src
      → Decodes
          (then_read
            (deserialize_number 4 0)
            back
            λ count. deserialize_each get (replicate count init))
          src
          (counted wire src)
  vector-Decodes back init src h f =
      counted-Decodes back _ (length src) src (concat wire src) h
        (deserialize_each-Decodes _ src (length-replicate (length src) init) f)

string-Decodes :
    (old a : List ℕ) → FitsString a → Decodes (deserialize_string old) a (wire_string a)
string-Decodes old a h = deserialize_string-Decodes old a (omega arith)

pub deserialize_string_array-Decodes :
    (old src : List (List ℕ))
    → length old ≡ length src
    → All FitsString src
    → Decodes (deserialize_string_array old) src (concat wire_string src)
unfolding deserialize_string_array
deserialize_string_array-Decodes =
    deserialize_each-Decodes FitsString deserialize_string wire_string string-Decodes

pub deserialize_string_vector-Decodes :
    (old src : List (List ℕ))
    → length src < 2 ^ 32
    → All FitsString src
    → Decodes (deserialize_string_vector old) src (counted wire_string src)
unfolding deserialize_string_vector
deserialize_string_vector-Decodes old =
    vector-Decodes FitsString deserialize_string wire_string string-Decodes (λ n. old) []

module _ {A : Type 0} ⦃m : Message A⦄ (wire : A → List ℕ) (Fits : A → Type 0)
    (codec : IsCodec m wire Fits) where
  pub deserialize_message-Decodes :
      (old a : A) → Fits a → Decodes (deserialize_message old) a (wire a)
  unfolding deserialize_message
  deserialize_message-Decodes old a h = codec.deserialize-wire a old h

  pub deserialize_message_array-Decodes :
      (old src : List A)
      → length old ≡ length src
      → All Fits src
      → Decodes (deserialize_message_array old) src (concat wire src)
  unfolding deserialize_message_array
  deserialize_message_array-Decodes =
      deserialize_each-Decodes Fits deserialize_message wire deserialize_message-Decodes

  pub deserialize_message_vector-Decodes :
      (old src : List A)
      → length src < 2 ^ 32
      → All Fits src
      → Decodes (deserialize_message_vector old) src (counted wire src)
  unfolding deserialize_message_vector
  deserialize_message_vector-Decodes old =
      vector-Decodes Fits deserialize_message wire deserialize_message-Decodes (λ n. old) m.init
