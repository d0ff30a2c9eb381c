-- ===== src/Memory/Readers.antt =====
-- Laws of readers, kept under `then_read`.
use rob320_p.Base.{
  ℕ, ◌+◌, ◌≤◌, ◌≡◌, ◌<◌, List, [], ◌++◌, length, drop, ltb, Bool-cases, ltb→lt, ltb→le, refl, ap,
  ◌∙◌, arith, inl, inr, length-append, append_assoc, append-nil, drop_seam,
}
use mathlib.Core.Path.{subst}
use rob320_p.Memory.{Src, Outcome, fault, failed, done, Reader, then_read, IsSized}

-- No fault, and the offset ends between `lo` and `hi`.
abbrev pub Within {ℓ} : {A : Type ℓ} → ℕ → ℕ → Outcome A → Type 0
Within lo hi fault = ⊥
Within lo hi (failed a o) = (lo ≤ o) × (o ≤ hi)
Within lo hi (done a o) = (lo ≤ o) × (o ≤ hi)

-- `f` never reads outside of its source, and keeps the offset within it.
pub record IsBounded {ℓ} {A : Type ℓ} (f : Reader A) : Type ℓ where
  pub within : (s : Src) (o : ℕ) → IsSized s → o ≤ s.size → Within o s.size (f s o)

abbrev pub Rejects {ℓ} : {A : Type ℓ} → Outcome A → Type 0
Rejects fault = ⊥
Rejects (failed a o) = Unit {0}
Rejects (done a o) = ⊥

-- `f` reads the bytes `w` as the value `a`, and fails if the source ends before they do.
pub record Decodes {ℓ} {A : Type ℓ} (f : Reader A) (a : A) (w : List ℕ) : Type ℓ where
  pub reads :
      (s : Src) (o : ℕ) (rest : List ℕ)
      → IsSized s
      → drop o s.bytes ≡ w ++ rest
      → o + length w ≤ s.size
      → f s o ≡ done a (o + length w)
  pub short :
      (s : Src) (o : ℕ) (rest : List ℕ)
      → IsSized s
      → drop o s.bytes ≡ w ++ rest
      → o ≤ s.size
      → s.size < o + length w
      → Rejects (f s o)

Within-mono {ℓ} :
    {A : Type ℓ} (lo mid hi : ℕ) (r : Outcome A) → lo ≤ mid → Within mid hi r → Within lo hi r
Within-mono lo mid hi fault h b = b
Within-mono lo mid hi (failed a o) h b = omega arith
Within-mono lo mid hi (done a o) h b = omega arith

-- What `f` reads satisfies `P`.
pub record Yields {ℓ} {A : Type ℓ} (P : A → Type 0) (f : Reader A) : Type ℓ where
  pub yields : (s : Src) (o o' : ℕ) (a : A) → IsSized s → o ≤ s.size → f s o ≡ done a o' → P a

module _ {ℓ κ} {A : Type ℓ} {B : Type κ} where
  then_Within :
      {P : B → Type 0} (r : Outcome B) (f : Reader B) (back : B → A) (k : B → Reader A) (s : Src)
      (lo o : ℕ)
      → f s o ≡ r
      → Yields P f
      → ((b : B) → P b → IsBounded (k b))
      → IsSized s
      → o ≤ s.size
      → Within lo s.size r
      → Within lo s.size (then_read f back k s o)
  unfolding then_read
  then_Within fault f back k s lo o e y h z l b = absurd b
  then_Within (failed c o') f back k s lo o e y h z l b = rw (e, then_read) b
  then_Within (done c o') f back k s lo o e y h z l b =
      rw (e, then_read)
        (Within-mono lo o' s.size (k c s o') b.0
          ((h c (y.yields s o o' c z l e)).within s o' z b.1))

  pub then-Yields-IsBounded :
      {P : B → Type 0} (f : Reader B) (back : B → A) (k : B → Reader A)
      → Yields P f
      → IsBounded f
      → ((b : B) → P b → IsBounded (k b))
      → IsBounded (then_read f back k)
  then-Yields-IsBounded f back k y hf hk = record {
    within = λ s o z h. then_Within (f s o) f back k s o o refl y hk z h (hf.within s o z h);
  }

  pub then_read-IsBounded :
      (f : Reader B) (back : B → A) (k : B → Reader A)
      → IsBounded f
      → ((b : B) → IsBounded (k b))
      → IsBounded (then_read f back k)
  then_read-IsBounded f back k hf hk =
      then-Yields-IsBounded {P = λ b. Unit {0}} f back k (record { yields = λ s o o' a z l e. tt })
        hf (λ b u. hk b)

  rejected :
      (r : Outcome B) (f : Reader B) (back : B → A) (k : B → Reader A) (s : Src) (o : ℕ)
      → f s o ≡ r
      → Rejects r
      → Rejects (then_read f back k s o)
  unfolding then_read
  rejected fault f back k s o e h = absurd h
  rejected (failed c o') f back k s o e h = rw (e, then_read) tt
  rejected (done c o') f back k s o e h = absurd h

  then_short :
      (f : Reader B) (back : B → A) (k : B → Reader A) (b : B) (v w : List ℕ) (s : Src) (o : ℕ)
      (rest : List ℕ)
      → Decodes f b v
      → ((s : Src) (o : ℕ) (rest : List ℕ)
          → IsSized s
          → drop o s.bytes ≡ w ++ rest
          → o ≤ s.size
          → s.size < o + length w
          → Rejects (k b s o))
      → IsSized s
      → drop o s.bytes ≡ v ++ (w ++ rest)
      → o ≤ s.size
      → s.size < o + length v + length w
      → Rejects (then_read f back k s o)
  unfolding then_read
  then_short f back k b v w s o rest hf hk z e l h = elim (Bool-cases (ltb s.size (o + length v))) [
    | inl early ↦
        rejected (f s o) f back k s o refl (hf.short s o (w ++ rest) z e l (ltb→lt _ _ early))
    | inr late ↦
        let room : o + length v ≤ s.size = ltb→le _ _ late in
        rw (hf.reads s o (w ++ rest) z e room, then_read)
          (hk s (o + length v) rest z (drop_seam o _ s.bytes v (w ++ rest) e refl) room h)
  ]

  pub then_read-Decodes :
      (f : Reader B) (back : B → A) (k : B → Reader A) (b : B) (a : A) (v w : List ℕ)
      → Decodes f b v
      → Decodes (k b) a w
      → Decodes (then_read f back k) a (v ++ w)
  unfolding then_read
  then_read-Decodes f back k b a v w hf hk = record {
    reads = λ s o rest z e h.
        let l = length-append v w in
        let e' : drop o s.bytes ≡ v ++ (w ++ rest) = e ∙ append_assoc v w rest in
        let r : f s o ≡ done b (o + length v) = hf.reads s o (w ++ rest) z e' (omega arith) in
        let end : o + length v + length w ≡ o + length (v ++ w) = omega arith in
        rw (r, then_read)
          (hk.reads s (o + length v) rest z (drop_seam o _ s.bytes v (w ++ rest) e' refl)
              (omega arith)
            ∙ ap (done a) end);
    short = λ s o rest z e l h.
        then_short f back k b v w s o rest hf hk.short z (e ∙ append_assoc v w rest) l
          (omega (arith, length-append v w));
  }

pub done-IsBounded {ℓ} : {A : Type ℓ} (a : A) → IsBounded (λ s o. done a o)
done-IsBounded a = record { within = λ s o z h. omega arith }

pub done-Decodes {ℓ} : {A : Type ℓ} (a : A) → Decodes (λ s o. done a o) a []
done-Decodes a = record {
  reads = λ s o rest z e h. ap (done a) (omega arith);
  short = λ s o rest z e l h. absurd (omega arith);
}

-- The last step of a reader.
pub last-Decodes {ℓ κ} :
    {A : Type ℓ} {B : Type κ} (f : Reader B) (back : B → A) (g : B → A) (b : B) (w : List ℕ)
    → Decodes f b w
    → Decodes (then_read f back (λ b s o. done (g b) o)) (g b) w
last-Decodes f back g b w h =
    subst (Decodes _ (g b)) (append-nil w)
      (then_read-Decodes f back _ b (g b) w [] h (done-Decodes (g b)))

pub last-IsBounded {ℓ κ} :
    {A : Type ℓ} {B : Type κ} (f : Reader B) (back : B → A) (g : B → A)
    → IsBounded f
    → IsBounded (then_read f back (λ b s o. done (g b) o))
last-IsBounded f back g h = then_read-IsBounded f back _ h (λ b. done-IsBounded (g b))
