-- ===== src/Driver/ReadExact.antt =====
-- `read_exact` of src/mbot_driver/mbot_driver.cpp cuts the byte stream, however it is chunked.
use rob320_p.Base.{
  ℕ, zero, suc, ◌+◌, ◌-◌, ◌≡◌, ◌≤◌, ◌<◌, List, [], ◌∷◌, ◌++◌, true, All, IsByte, length, take, drop,
  arith, refl, sym, ap, ◌∙◌, leb, leb→le, leb→lt, le→leb, take_past, drop_past, take_within,
  drop_within, All-append, All-take, All-drop, length-take, length-drop, Bool-cases, false, inl,
  inr, length-append, append_assoc, append-nil,
}
use mathlib.Core.Path.{subst}
use rob320_p.Io.{Answer, bytes, interrupted, would_block, broken, Notif, notif_ready, IsQuiet}
use rob320_p.Io.Stream.{carried, ends, total, AreBytes, notif_ready-IsQuiet}
use rob320_p.Driver.{Exact, full, gave_up, waits, read_exact}

-- What any call leaves: `n` bytes were taken off the input, and no other.
abbrev pub Took : ℕ → List ℕ → List Answer → Exact → Type 0
Took n dst input (full buf input' notif) =
    (length buf ≡ length dst + n)
    × All IsByte buf
    × (total input' + n ≡ total input)
    × AreBytes input'
Took n dst input (gave_up input' notif) = Unit {0}
Took n dst input waits = Unit {0}

-- A chunk that is used up, and one that is longer than what is missing.
module _ (n : ℕ) (dst : List ℕ) (b : ℕ) (bs : List ℕ) (input : List Answer) (notif : Notif) where
  read_exact_used :
      leb (length (b ∷ bs)) (suc n) ≡ true
      → read_exact (suc n) dst (bytes (b ∷ bs) ∷ input) notif
        ≡ read_exact (suc n - length (b ∷ bs)) (dst ++ (b ∷ bs)) input notif
  unfolding read_exact
  read_exact_used e = rw (e, read_exact)

  read_exact_kept :
      leb (length (b ∷ bs)) (suc n) ≡ false
      → read_exact (suc n) dst (bytes (b ∷ bs) ∷ input) notif
        ≡ full (dst ++ take (suc n) (b ∷ bs)) (bytes (drop (suc n) (b ∷ bs)) ∷ input) notif
  unfolding read_exact
  read_exact_kept e = rw (e, read_exact)

Took-shift :
    (n n' : ℕ) (dst dst' : List ℕ) (i i' : List Answer) (r : Exact)
    → length dst' + n' ≡ length dst + n
    → total i + n' ≡ total i' + n
    → Took n' dst' i' r
    → Took n dst i r
Took-shift n n' dst dst' i i' (full buf input notif) e g h = (omega arith, h.1, omega arith, h.3)
Took-shift n n' dst dst' i i' (gave_up input notif) e g h = tt
Took-shift n n' dst dst' i i' waits e g h = tt

pub read_exact-Took :
    (n : ℕ) (dst : List ℕ) (input : List Answer) (notif : Notif)
    → All IsByte dst
    → AreBytes input
    → Took n dst input (read_exact n dst input notif)
unfolding read_exact
read_exact-Took zero dst input notif d h = (omega arith, d, omega arith, h)
read_exact-Took (suc n) dst [] notif d h = tt
read_exact-Took (suc n) dst (bytes [] ∷ input) notif d h = tt
read_exact-Took (suc n) dst (bytes (b ∷ bs) ∷ input) notif d h =
    elim (Bool-cases (leb (length (b ∷ bs)) (suc n))) [
      | inl fit ↦
          subst (Took (suc n) dst (bytes (b ∷ bs) ∷ input))
            (sym (read_exact_used n dst b bs input notif fit))
            (Took-shift (suc n) (suc n - length (b ∷ bs)) dst (dst ++ (b ∷ bs))
              (bytes (b ∷ bs) ∷ input) input _
              (omega (arith, length-append dst (b ∷ bs), leb→le _ _ fit))
              (omega (arith, leb→le _ _ fit))
              (read_exact-Took (suc n - length (b ∷ bs)) (dst ++ (b ∷ bs)) input notif
                (All-append IsByte dst (b ∷ bs) d h.0) h.1))
      | inr more ↦
          subst (Took (suc n) dst (bytes (b ∷ bs) ∷ input))
            (sym (read_exact_kept n dst b bs input notif more))
            (
              omega (
                arith,
                length-append dst (take (suc n) (b ∷ bs)),
                length-take (suc n) (b ∷ bs),
                leb→lt _ _ more,
              ),
              All-append IsByte dst (take (suc n) (b ∷ bs)) d
                  (All-take IsByte (suc n) (b ∷ bs) h.0),
              omega (arith, length-drop (suc n) (b ∷ bs), leb→lt _ _ more),
              (All-drop IsByte (suc n) (b ∷ bs) h.0, h.1),
            )
    ]
read_exact-Took (suc n) dst (interrupted ∷ input) notif d h =
    read_exact-Took (suc n) dst input notif d h
read_exact-Took (suc n) dst (would_block ∷ input) notif d h =
    elim (Bool-cases (notif_ready notif).0) [
      | inl ready ↦ rw (ready, read_exact) tt
      | inr no_more ↦
          rw (no_more, read_exact) (read_exact-Took (suc n) dst input (notif_ready notif).1 d h)
    ]
read_exact-Took (suc n) dst (broken ∷ input) notif d h = tt

-- With a quiet notification: as many bytes as are asked for come off the front of the stream.
abbrev pub Cut : ℕ → List ℕ → List Answer → Exact → Type 0
Cut n dst input r =
    (input' : List Answer) × (notif' : Notif) × (r
      ≡ full (dst ++ take n (carried input)) input' notif')
    × (carried input' ≡ drop n (carried input))
    × (ends input' ≡ ends input)
    × IsQuiet notif'

remainder_carried :
    (n : ℕ) (bs : List ℕ) (input : List Answer)
    → n < length bs
    → (carried (bytes (drop n bs) ∷ input) ≡ drop n bs ++ carried input)
      × (ends (bytes (drop n bs) ∷ input) ≡ ends input)
remainder_carried n [] input h = absurd (omega arith)
remainder_carried zero (b ∷ bs) input h = (refl, refl)
remainder_carried (suc n) (b ∷ bs) input h = remainder_carried n bs input (omega arith)

-- If the notification is quiet and the stream carries as many bytes as are missing, read_exact succeeds
-- with the next of them behind those it had, however they are cut, and leaves the rest of the stream,
-- its end and a quiet notification.
pub read_exact-Cut :
    (n : ℕ) (dst : List ℕ) (input : List Answer) (notif : Notif)
    → IsQuiet notif
    → n ≤ length (carried input)
    → Cut n dst input (read_exact n dst input notif)
unfolding read_exact
read_exact-Cut zero dst input notif q h = (input, notif, rw append-nil, refl, refl, q)
read_exact-Cut (suc n) dst [] notif q h = absurd (omega arith)
read_exact-Cut (suc n) dst (bytes [] ∷ input) notif q h = absurd (omega arith)
read_exact-Cut (suc n) dst (bytes (b ∷ bs) ∷ input) notif q h =
    elim (Bool-cases (leb (length (b ∷ bs)) (suc n))) [
      | inl fit ↦
          let rest : ℕ = suc n - length (b ∷ bs) in
          let split : suc n ≡ length (b ∷ bs) + rest = omega (arith, leb→le _ _ fit) in
          let (input', notif', r, c, e, q') =
            read_exact-Cut rest (dst ++ (b ∷ bs)) input notif q
              (omega (arith, length-append (b ∷ bs) (carried input), leb→le _ _ fit)) in
          subst (Cut (suc n) dst (bytes (b ∷ bs) ∷ input))
            (sym (read_exact_used n dst b bs input notif fit))
            (
              input',
              notif',
              r
                  ∙ ap (λ l. full l input' notif')
                      (append_assoc dst (b ∷ bs) (take rest (carried input))
                        ∙ ap (◌++◌ dst)
                            (sym (take_past (suc n) rest (b ∷ bs) (carried input) split))),
              c ∙ sym (drop_past (suc n) rest (b ∷ bs) (carried input) split),
              e,
              q',
            )
      | inr more ↦
          let room : suc n < length (b ∷ bs) = leb→lt _ _ more in
          subst (Cut (suc n) dst (bytes (b ∷ bs) ∷ input))
            (sym (read_exact_kept n dst b bs input notif more))
            (
              bytes (drop (suc n) (b ∷ bs)) ∷ input,
              notif,
              ap (λ l. full (dst ++ l) (bytes (drop (suc n) (b ∷ bs)) ∷ input) notif)
                  (sym (take_within (suc n) (b ∷ bs) (carried input) (omega arith))),
              (remainder_carried (suc n) (b ∷ bs) input room).0
                  ∙ sym (drop_within (suc n) (b ∷ bs) (carried input) (omega arith)),
              (remainder_carried (suc n) (b ∷ bs) input room).1,
              q,
            )
    ]
read_exact-Cut (suc n) dst (interrupted ∷ input) notif q h =
    read_exact-Cut (suc n) dst input notif q h
read_exact-Cut (suc n) dst (would_block ∷ input) notif q h =
    let quiet = notif_ready-IsQuiet notif q in
    rw (quiet.0, read_exact) (read_exact-Cut (suc n) dst input (notif_ready notif).1 quiet.1 h)
read_exact-Cut (suc n) dst (broken ∷ input) notif q h = absurd (omega arith)

-- And where the stream ends before, the call gives up.
abbrev pub GaveUp : Exact → Type 0
GaveUp r = (input : List Answer) × (notif : Notif) × (r ≡ gave_up input notif)

-- If the notification is quiet and the stream ends before it has carried the bytes that are missing,
-- read_exact fails.
pub read_exact-GaveUp :
    (n : ℕ) (dst : List ℕ) (input : List Answer) (notif : Notif)
    → IsQuiet notif
    → length (carried input) < n
    → ends input ≡ true
    → GaveUp (read_exact n dst input notif)
unfolding read_exact
read_exact-GaveUp zero dst input notif q h e = absurd (omega arith)
read_exact-GaveUp (suc n) dst [] notif q h e = cc
read_exact-GaveUp (suc n) dst (bytes [] ∷ input) notif q h e = (input, notif, refl)
read_exact-GaveUp (suc n) dst (bytes (b ∷ bs) ∷ input) notif q h e =
    let short = length-append (b ∷ bs) (carried input) in
    let fit : leb (length (b ∷ bs)) (suc n) ≡ true = le→leb _ _ (omega (arith, short)) in
    subst GaveUp (sym (read_exact_used n dst b bs input notif fit)) (
      read_exact-GaveUp (suc n - length (b ∷ bs)) (dst ++ (b ∷ bs)) input notif q
        (omega (arith, short)) e)
read_exact-GaveUp (suc n) dst (interrupted ∷ input) notif q h e =
    read_exact-GaveUp (suc n) dst input notif q h e
read_exact-GaveUp (suc n) dst (would_block ∷ input) notif q h e =
    let quiet = notif_ready-IsQuiet notif q in
    rw (quiet.0, read_exact) (read_exact-GaveUp (suc n) dst input (notif_ready notif).1 quiet.1 h e)
read_exact-GaveUp (suc n) dst (broken ∷ input) notif q h e = (input, notif, refl)
