-- ===== src/Memory/Copy.antt =====
-- What the writes and reads of Memory do.
use rob320_p.Base.{
  take-append-drop, replicate, length-replicate, append-nil, ℕ, zero, suc, ◌+◌, ◌≤◌, ◌≡◌, ◌<◌, List,
  [], ◌∷◌, ◌++◌, none, some, length, set, take, drop, ltb, lt→ltb, true, refl, sym, Option, ap, ◌∙◌,
  ◌>>=◌, arith, Bool-cases, inl, inr, length-set,
}
use mathlib.Core.Path.{fun_ext}
use rob320_p.Memory.{Out, write, first}

-- Two copies one after the other are one copy.
pub write-append : (xs ys : List ℕ) (o : Out) → write (xs ++ ys) o ≡ (write xs o >>= write ys)
unfolding write
write-append [] ys o = refl
write-append (x ∷ xs) ys o = elim (Bool-cases (ltb o.offset (length o.dst))) [
  | inl h ↦ rw h (write-append xs ys _)
  | inr h ↦ rw h
]

-- A write followed by another.
pub write_then :
    (f g : Out → Option Out) (xs ys : List ℕ) (o : Out)
    → f o ≡ write xs o
    → ((o : Out) → g o ≡ write ys o)
    → (f o >>= g) ≡ write (xs ++ ys) o
write_then f g xs ys o e h = rw (e, fun_ext h) (sym (write-append xs ys o))

-- `bs` put over the bytes of `dst` from `i` up to `j`.
abbrev pub splice : List ℕ → ℕ → ℕ → List ℕ → List ℕ
splice dst i j bs = take i dst ++ (bs ++ drop j dst)

splice_step :
    (dst : List ℕ) (i j b : ℕ) (bs : List ℕ)
    → i < j
    → i < length dst
    → splice (set dst i b) (suc i) j bs ≡ splice dst i j (b ∷ bs)
splice_step [] i j b bs h l = absurd (omega arith)
splice_step (x ∷ dst) i zero b bs h l = absurd (omega arith)
splice_step (x ∷ dst) zero (suc j) b bs h l = refl
splice_step (x ∷ dst) (suc i) (suc j) b bs h l =
    ap (◌∷◌ x) (splice_step dst i j b bs (omega arith) (omega arith))

-- A copy that fits the buffer writes just its bytes, and moves the offset behind them.
pub write-splice :
    (bs dst : List ℕ) (i j : ℕ)
    → j ≡ i + length bs
    → j ≤ length dst
    → write bs (record { dst = dst; offset = i })
      ≡ some (record { dst = splice dst i j bs; offset = j })
unfolding write
write-splice [] dst i j e h = let e' : j ≡ i = omega arith in rw (e', take-append-drop i dst)
write-splice (b ∷ bs) dst i j e h =
    let l : ltb i (length dst) ≡ true = lt→ltb _ _ (omega arith) in
    let step : i + 1 ≡ suc i = omega arith in
    rw (l, step)
      (write-splice bs (set dst i b) (suc i) j (omega arith) (omega (arith, length-set dst i b))
        ∙ ap (λ d. some (record { dst = d; offset = j }))
            (splice_step dst i j b bs (omega arith) (omega arith)))

-- A copy that does not fit is a fault.
pub write-none :
    (bs dst : List ℕ) (i : ℕ)
    → i ≤ length dst
    → length dst < i + length bs
    → write bs (record { dst = dst; offset = i }) ≡ none
unfolding write
write-none [] dst i h l = absurd (omega arith)
write-none (b ∷ bs) dst i h l =
    ground (arith, write-none bs (set dst i b) (i + 1), length-set dst i b)

pub first-append : (xs ys : List ℕ) → first (length xs) (xs ++ ys) ≡ some xs
unfolding first
first-append [] ys = refl
first-append (x ∷ xs) ys = rw (first-append xs ys)

pub first-take : (n : ℕ) (bs : List ℕ) → n ≤ length bs → first n bs ≡ some (take n bs)
unfolding first
first-take zero bs h = refl
first-take (suc n) [] h = absurd (omega arith)
first-take (suc n) (b ∷ bs) h = rw (first-take n bs (omega arith))

pub drop_all : (n : ℕ) (xs : List ℕ) → length xs ≤ n → drop n xs ≡ []
drop_all zero [] h = refl
drop_all (suc n) [] h = refl
drop_all zero (x ∷ xs) h = absurd (omega arith)
drop_all (suc n) (x ∷ xs) h = drop_all n xs (omega arith)

-- A new buffer of just the length of the bytes is filled with them.
pub write_filled :
    (bs : List ℕ) (n : ℕ)
    → n ≡ length bs
    → write bs (record { dst = replicate n 0; offset = 0 }) ≡ some (record { dst = bs; offset = n })
write_filled bs n e =
    write-splice bs (replicate n 0) 0 n (omega arith) (omega (arith, length-replicate {A = ℕ} n 0))
    ∙ ap (λ d. some (record { dst = bs ++ d; offset = n }))
        (drop_all n (replicate n 0) (omega (arith, length-replicate {A = ℕ} n 0)))
    ∙ ap (λ d. some (record { dst = d; offset = n })) (append-nil bs)
