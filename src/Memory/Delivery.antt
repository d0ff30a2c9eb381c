-- ===== src/Memory/Delivery.antt =====
-- A value written to a buffer and read from it again.
use rob320_p.Base.{
  ℕ, ◌+◌, ◌≤◌, ◌≡◌, ◌^◌, List, [], ◌∷◌, ◌++◌, Option, some, All, All-append, All-take, All-drop,
  IsByte, length, take, drop, arith, sym, ap, ◌∙◌, length-append, length-take, length-drop,
  drop-append, concat,
}
use rob320_p.Memory.{Out, write, Reader, done}
use rob320_p.Memory.Copy.{splice, write-splice}
use rob320_p.Memory.Readers.{Decodes}

-- `f` writes at `i` in `dst` and moves the offset by `n`, and `g` reads `a` there, and moves it as far.
abbrev pub Delivered {ℓ} :
    {A : Type ℓ} → (Out → Option Out) → Reader A → A → List ℕ → ℕ → ℕ → Type ℓ
Delivered f g a dst i n =
    (dst' : List ℕ) × (f (record { dst = dst; offset = i })
      ≡ some (record { dst = dst'; offset = i + n }))
    × (g (record { bytes = dst'; size = length dst' }) i ≡ done a (i + n))

-- A buffer of bytes, shorter than the address space.
abbrev pub IsBuffer : List ℕ → Type 0
IsBuffer dst = All IsByte dst × (length dst + 2 ^ 36 ≤ 2 ^ 64)

pub concat-AreBytes {ℓ} :
    {A : Type ℓ} (f : A → List ℕ) (xs : List A)
    → All (λ x. All IsByte (f x)) xs
    → All IsByte (concat f xs)
concat-AreBytes f [] h = tt
concat-AreBytes f (x ∷ xs) h = All-append IsByte (f x) (concat f xs) h.0 (concat-AreBytes f xs h.1)

length-splice :
    (dst w : List ℕ) (i j : ℕ)
    → j ≡ i + length w
    → j ≤ length dst
    → length (splice dst i j w) ≡ length dst
length-splice dst w i j e h = omega (
  arith,
  length-append (take i dst) (w ++ drop j dst),
  length-append w (drop j dst),
  length-take i dst,
  length-drop j dst,
)

pub written-Delivered {ℓ} :
    {A : Type ℓ} (f : Out → Option Out) (g : Reader A) (a : A) (w dst : List ℕ) (i n : ℕ)
    → f (record { dst = dst; offset = i }) ≡ write w (record { dst = dst; offset = i })
    → Decodes g a w
    → All IsByte w
    → n ≡ length w
    → IsBuffer dst
    → i + n ≤ length dst
    → Delivered f g a dst i n
written-Delivered f g a w dst i n e d b l h fits = (
  splice dst i (i + n) w,
  e ∙ write-splice w dst i (i + n) (omega arith) fits,
  d.reads (record { bytes = splice dst i (i + n) w; size = length (splice dst i (i + n) w) }) i
        (drop (i + n) dst)
        (record {
          are_bytes =
              All-append IsByte (take i dst) _ (All-take IsByte i dst h.0)
                (All-append IsByte w _ b (All-drop IsByte (i + n) dst h.0));
          held = omega arith;
          clear = omega (arith, same);
        })
        (drop-append i (take i dst) (w ++ drop (i + n) dst) (omega (arith, length-take i dst)))
        (omega (arith, same))
      ∙ ap (λ k. done a (i + k)) (sym l),
)
  where
    same : length (splice dst i (i + n) w) ≡ length dst
    same = length-splice dst w i (i + n) (omega arith) fits
