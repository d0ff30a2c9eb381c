-- ===== src/Ipc/Flags.antt =====
-- The flags and the timeouts of class File (src/rix/ipc/file.cpp).
use rob320_p.Base.{
  ℕ, ◌+◌, ◌-◌, ◌*◌, ◌^◌, ◌≡◌, ◌≤◌, ◌<◌, Bool, true, false, refl, ap, ◌∙◌, if◌then◌else◌, arith, inl,
  inr, Bool-cases, lt→ltb, le→ltb, ltb→le, ◌⊎◌,
}
use rob320_p.Base.Int.{ℤ, pos, negsuc, pos_part, neg_part, ltb_ℤ}
use rob320_p.Util.Chrono
use rob320_p.Util.Chrono.{ceil-IsCeil}
use rob320_p.Util.Duration
use rob320_p.Util.Duration.{Duration}
use rob320_p.Ipc.Kernel.{Kernel}
use rob320_p.Ipc.File.{
  File, has_nonblock, with_nonblock, set_nonblocking, is_nonblocking, timeout_ms,
}

pub has_nonblock-with_nonblock : (b : Bool) (flags : ℕ) → has_nonblock (with_nonblock b flags) ≡ b
has_nonblock-with_nonblock true flags = ground arith
has_nonblock-with_nonblock false flags = ground arith

-- fcntl with F_GETFL after F_SETFL gives the flags that were set, where only O_NONBLOCK changes.
pub record KeepsFlags (k : Kernel) : Type 0 where
  pub get_flags-set_flags :
      (n flags : ℕ) (b : Bool) (s : k.State)
      → k.get_flags n s ≡ pos flags
      → k.get_flags n (k.set_flags n (with_nonblock b flags) s) ≡ pos (with_nonblock b flags)

pub restored : (flags : ℕ) → with_nonblock (has_nonblock flags) (with_nonblock true flags) ≡ flags
restored flags = elim (Bool-cases (has_nonblock flags)) [
  | inl on ↦ rw (on, on)
  | inr off ↦ rw off (ground arith)
]

module _ (k : Kernel) (keeps : KeepsFlags k) (f : File) (n : ℕ) (open_fd : f.fd ≡ pos n) where
  pub set_flags_of :
      (b : Bool) (s : k.State) (flags : ℕ)
      → k.get_flags n s ≡ pos flags
      → set_nonblocking k f b s ≡ k.set_flags n (with_nonblock b flags) s
  unfolding set_nonblocking
  set_flags_of b s flags g = rw (set_nonblocking, open_fd, g)

  pub flags_of :
      (b : Bool) (s : k.State) (flags : ℕ)
      → k.get_flags n s ≡ pos flags
      → k.get_flags n (set_nonblocking k f b s) ≡ pos (with_nonblock b flags)
  flags_of b s flags g = rw (set_flags_of b s flags g) (keeps.get_flags-set_flags n flags b s g)

  pub has_flag :
      (s : k.State) (flags : ℕ)
      → k.get_flags n s ≡ pos flags
      → is_nonblocking k f s ≡ has_nonblock flags
  unfolding is_nonblocking
  has_flag s flags g = rw (is_nonblocking, open_fd, g)

  -- Over a kernel that keeps the flags it is given, for an open file: is_nonblocking gives what
  -- set_nonblocking has set, and set_nonblocking of what is_nonblocking gave restores all flags after a
  -- set_nonblocking(true).
  pub is_nonblocking-set_nonblocking :
      (b : Bool) (s : k.State) (flags : ℕ)
      → k.get_flags n s ≡ pos flags
      → (is_nonblocking k f (set_nonblocking k f b s) ≡ b)
        × (k.get_flags n (set_nonblocking k f (is_nonblocking k f s) (set_nonblocking k f true s))
            ≡ pos flags)
  is_nonblocking-set_nonblocking b s flags g = (
    has_flag (set_nonblocking k f b s) (with_nonblock b flags) (flags_of b s flags g)
        ∙ has_nonblock-with_nonblock b flags,
    flags_of (is_nonblocking k f s) (set_nonblocking k f true s) (with_nonblock true flags)
          (flags_of true s flags g)
        ∙ ap (λ b. pos (with_nonblock b (with_nonblock true flags))) (has_flag s flags g)
        ∙ ap pos (restored flags),
  )

-- The longest wait that poll takes.
abbrev pub longest : ℕ
longest = 2 ^ 31 - 1

-- A wait of `t` milliseconds for a duration of `d` nanoseconds: not negative, not longer than poll takes, and
-- the longest or else enough, with less than a millisecond to spare.
abbrev pub IsEnough : ℤ → ℤ → Type 0
IsEnough d t =
    (neg_part t ≡ 0)
    × (pos_part t ≤ longest)
    × ((pos_part t ≡ longest)
        ⊎ ((pos_part d ≤ pos_part t * 1_000_000)
            × (pos_part t * 1_000_000 < pos_part d + 1_000_000)))

capped :
    (d ms : ℤ)
    → Chrono.IsCeil 1_000_000 d ms
    → IsEnough d
        (if ltb_ℤ d (pos 0) then pos 0 else if ltb_ℤ (pos longest) ms then pos longest else ms)
capped (pos d) (pos ms) h =
    let positive : ltb_ℤ (pos d) (pos 0) ≡ false = le→ltb _ _ (omega arith) in
    elim (Bool-cases (ltb_ℤ (pos longest) (pos ms))) [
      | inl long ↦ rw (positive, long) (refl, omega arith, inl refl)
      | inr short ↦
          rw (positive, short)
            (refl, omega (arith, ltb→le _ _ short), inr (omega arith, omega arith))
    ]
capped (pos d) (negsuc ms) h = absurd (omega arith)
capped (negsuc d) ms h =
    let negative : ltb_ℤ (negsuc d) (pos 0) ≡ true = lt→ltb _ _ (omega arith) in
    rw negative (refl, omega arith, inr (omega arith, omega arith))

-- The timeout that the waits hand to poll is not negative and fits an int; it is the largest int, or it
-- is not shorter than the duration and longer by less than a millisecond, where a negative duration
-- counts as 0.
pub timeout_ms-IsEnough : (duration : Duration) → IsEnough duration.d (timeout_ms duration)
unfolding timeout_ms Duration.to_nanoseconds Duration.to_milliseconds
timeout_ms-IsEnough duration = capped duration.d _ (ceil-IsCeil 1_000_000 duration.d (omega arith))
