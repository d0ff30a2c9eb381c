-- ===== src/Ipc/Signal/Waits.antt =====
-- A delivered signal and the waits after it (src/rix/ipc/signal.cpp).
use rob320_p.Base.{
  ℕ, zero, suc, ◌+◌, ◌≡◌, ◌<◌, List, [], ◌∷◌, Bool, true, false, ltb, length, Option, some, ◌>>=◌,
  arith, refl, inl, inr, Bool-cases, ltb→lt, ltb→le, ap, ◌∙◌, lt→ltb, ◌&&◌,
}
use rob320_p.Base.Int.{ℤ, pos, ltb_ℤ}
use rob320_p.Io.{Answer, bytes, would_block}
use rob320_p.Util.Duration.{Duration}
use rob320_p.Ipc.Kernel.{Kernel, poll_in}
use rob320_p.Ipc.File
use rob320_p.Ipc.File.{File, with_nonblock, has_nonblock, timeout_ms}
use rob320_p.Ipc.Flags.{
  KeepsFlags, restored, set_flags_of, has_flag, flags_of, has_nonblock-with_nonblock,
}
use rob320_p.Ipc.Signal.{Signal, World, drain, drain_all, after_wait, wait_pipe, wait, handler}

-- What POSIX says of the pipe with the read end `r` and the write end `w`, with no other process at it:
-- `pending` is the number of bytes in it.
pub record IsPipe (k : Kernel) (r w : ℕ) : Type 0 where
  pub pending : k.State → ℕ
  pub poll_pending : (t : ℤ) (s : k.State) → 0 < pending s → k.poll r poll_in t s ≡ (pos 1, true, s)
  pub poll_empty : (t : ℤ) (s : k.State) → pending s ≡ 0 → k.poll r poll_in t s ≡ (pos 0, false, s)
  -- A read takes up to `n` bytes, and one of an empty pipe that would block is refused.
  pub read_pending :
      (n : ℕ) (s : k.State)
      → 0 < n
      → 0 < pending s
      → (b : ℕ) × (bs : List ℕ) × ((k.read r n s).0 ≡ bytes (b ∷ bs))
        × (pending (k.read r n s).1 + length (b ∷ bs) ≡ pending s)
  pub read_empty :
      (n flags : ℕ) (s : k.State)
      → k.get_flags r s ≡ pos flags
      → has_nonblock flags ≡ true
      → pending s ≡ 0
      → k.read r n s ≡ (would_block, s)
  pub get_flags-read : (n : ℕ) (s : k.State) → k.get_flags r (k.read r n s).1 ≡ k.get_flags r s
  pub pending-set_flags : (flags : ℕ) (s : k.State) → pending (k.set_flags r flags s) ≡ pending s
  pub pending-write : (b : ℕ) (s : k.State) → 0 < pending (k.write w (b ∷ []) s).1
  pub get_flags-write :
      (bs : List ℕ) (s : k.State) → k.get_flags r (k.write w bs s).1 ≡ k.get_flags r s

module _ (k : Kernel) (r w : ℕ) (pipe : IsPipe k r w) (keeps : KeepsFlags k) where
  abbrev pub reads : File
  reads = record { fd = pos r }

  abbrev Drained : ℕ → Option k.State → Type 0
  Drained flags result =
      (s : k.State) × (result ≡ some s) × (pipe.pending s ≡ 0) × (k.get_flags r s ≡ pos flags)

  drain-Drained :
      (fuel flags : ℕ) (s : k.State)
      → pipe.pending s < fuel
      → has_nonblock flags ≡ true
      → k.get_flags r s ≡ pos flags
      → Drained flags (drain k fuel reads s)
  unfolding drain File.read
  drain-Drained zero flags s l n g = absurd (omega arith)
  drain-Drained (suc fuel) flags s l n g = elim (Bool-cases (ltb 0 (pipe.pending s))) [
    | inl more ↦
        let (b, bs, e, less) = pipe.read_pending 64 s (omega arith) (ltb→lt _ _ more) in
        rw (drain, e)
          (drain-Drained fuel flags (k.read r 64 s).1 (omega (arith, less)) n
            (pipe.get_flags-read 64 s ∙ g))
    | inr over ↦
        let empty : pipe.pending s ≡ 0 = omega (arith, ltb→le _ _ over) in
        let refused = pipe.read_empty 64 flags s g n empty in
        let answer : (k.read r 64 s).0 ≡ would_block = ap (λ (x : Answer × k.State). x.0) refused in
        let still : (k.read r 64 s).1 ≡ s = ap (λ (x : Answer × k.State). x.1) refused in
        rw (drain, answer)
          ((k.read r 64 s).1, refl, ap pipe.pending still ∙ empty, ap (k.get_flags r) still ∙ g)
  ]

  drain_all-Drained :
      (fuel flags : ℕ) (s : k.State)
      → pipe.pending s < fuel
      → k.get_flags r s ≡ pos flags
      → Drained flags (drain_all k fuel reads s)
  unfolding drain_all
  drain_all-Drained fuel flags s l g =
      let on : k.State = File.set_nonblocking k reads true s in
      let on_flags = flags_of k keeps reads r refl true s flags g in
      let kept : pipe.pending on ≡ pipe.pending s =
        ap pipe.pending (set_flags_of k keeps reads r refl true s flags g)
        ∙ pipe.pending-set_flags (with_nonblock true flags) s in
      let (s', e, empty, g') =
        drain-Drained fuel (with_nonblock true flags) on (omega (arith, kept))
          (has_nonblock-with_nonblock true flags) on_flags in
      let back : File.set_nonblocking k reads (File.is_nonblocking k reads s) s'
          ≡ k.set_flags r (with_nonblock (has_nonblock flags) (with_nonblock true flags)) s' =
        set_flags_of k keeps reads r refl (File.is_nonblocking k reads s) s' _ g'
        ∙ ap (λ b. k.set_flags r (with_nonblock b (with_nonblock true flags)) s')
            (has_flag k keeps reads r refl s flags g) in
      (
        File.set_nonblocking k reads (File.is_nonblocking k reads s) s',
        rw (drain_all, e),
        ap pipe.pending back ∙ pipe.pending-set_flags _ s' ∙ empty,
        flags_of k keeps reads r refl (File.is_nonblocking k reads s) s' _ g'
            ∙ ap (λ b. pos (with_nonblock b (with_nonblock true flags)))
                (has_flag k keeps reads r refl s flags g)
            ∙ ap pos (restored flags),
      )

  abbrev seen : ℤ × Bool × k.State → Bool × k.State
  seen (ret, revents, s) = (ltb_ℤ (pos 0) ret && revents, s)

  readable :
      (d : Duration) (s : k.State)
      → 0 < pipe.pending s
      → File.wait_for_readable k reads d s ≡ (true, s)
  unfolding File.wait_for_readable File.wait_for
  readable d s more = ap seen (pipe.poll_pending (timeout_ms d) s more)

  unreadable :
      (d : Duration) (s : k.State)
      → pipe.pending s ≡ 0
      → File.wait_for_readable k reads d s ≡ (false, s)
  unfolding File.wait_for_readable File.wait_for
  unreadable d s empty = ap seen (pipe.poll_empty (timeout_ms d) s empty)

  pub wait_pipe_pending :
      (fuel flags : ℕ) (d : Duration) (s : k.State)
      → 0 < pipe.pending s
      → pipe.pending s < fuel
      → k.get_flags r s ≡ pos flags
      → (s' : k.State) × (wait_pipe k fuel reads d s ≡ some (true, s'))
        × (pipe.pending s' ≡ 0)
        × (k.get_flags r s' ≡ pos flags)
  unfolding wait_pipe after_wait
  wait_pipe_pending fuel flags d s more l g =
      let (s', e, empty, g') = drain_all-Drained fuel flags s l g in
      (
        s',
        ap (after_wait k fuel reads) (readable d s more)
            ∙ ap (λ r. r >>= λ s''. some (true, s'')) e,
        empty,
        g',
      )

  wait_pipe_empty :
      (fuel : ℕ) (d : Duration) (s : k.State)
      → pipe.pending s ≡ 0
      → wait_pipe k fuel reads d s ≡ some (false, s)
  unfolding wait_pipe after_wait
  wait_pipe_empty fuel d s empty = ap (after_wait k fuel reads) (unreadable d s empty)

  abbrev pub lifted : World k → Option (Bool × k.State) → Option (Bool × World k)
  lifted v answer = answer >>= λ a. some (a.0, record v { kernel = a.1 })

  module _ (x : Signal) (i : ℕ) (index : x.index ≡ pos i) (low : i < 32) where
    pub wait_of :
        (fuel : ℕ) (d : Duration) (v : World k)
        → (v.notifier i).is_init ≡ true
        → (v.notifier i).reads.fd ≡ pos r
        → wait k fuel x d v ≡ lifted v (wait_pipe k fuel reads d v.kernel)
    unfolding wait
    wait_of fuel d v init fd = rw (wait, index, lt→ltb _ _ low, init, fd)

    pub handler_of :
        (v : World k)
        → (v.notifier i).is_init ≡ true
        → (v.notifier i).writes.fd ≡ pos w
        → handler k (pos (suc i)) v ≡ record v { kernel = (k.write w (1 ∷ []) v.kernel).1 }
    unfolding handler
    handler_of v init fd = rw (handler, lt→ltb _ _ low, init, fd)

    -- Over a kernel that is POSIX in the flags and in a pipe without other processes, and with an entry
    -- of the table that has this pipe: once the handler has run for a signal, wait of its Signal
    -- returns true if the fuel is above the number of bytes in the pipe, a wait after it returns false,
    -- and the flags of the pipe are as before.
    pub wait-handler :
        (fuel flags : ℕ) (d d' : Duration) (v : World k)
        → (v.notifier i).is_init ≡ true
        → (v.notifier i).reads.fd ≡ pos r
        → (v.notifier i).writes.fd ≡ pos w
        → k.get_flags r v.kernel ≡ pos flags
        → pipe.pending (k.write w (1 ∷ []) v.kernel).1 < fuel
        → (v' : World k) × (wait k fuel x d (handler k (pos (suc i)) v) ≡ some (true, v'))
          × (wait k fuel x d' v' ≡ some (false, v'))
          × (k.get_flags r v'.kernel ≡ pos flags)
    wait-handler fuel flags d d' v init fd fd' g l =
        let s : k.State = (k.write w (1 ∷ []) v.kernel).1 in
        let (s', e, empty, g') =
          wait_pipe_pending fuel flags d s (pipe.pending-write 1 v.kernel) l
            (pipe.get_flags-write (1 ∷ []) v.kernel ∙ g) in
        (
          record v { kernel = s' },
          ap (wait k fuel x d) (handler_of v init fd')
              ∙ wait_of fuel d (record v { kernel = s }) init fd
              ∙ ap (lifted v) e,
          wait_of fuel d' (record v { kernel = s' }) init fd
              ∙ ap (lifted v) (wait_pipe_empty fuel d' s' empty),
          g',
        )
