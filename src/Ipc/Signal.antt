-- ===== src/Ipc/Signal.antt =====
-- class Signal of src/rix/ipc/signal.cpp. The World is its static table `notifier`, by index, and the kernel.
pub mod Waits
pub mod Managed
pub mod Program
use rob320_p.Base.{
  ℕ, zero, suc, ◌+◌, ◌-◌, ◌≡◌, List, [], ◌∷◌, Bool, true, false, ◌==◌, ltb, if◌then◌else◌, Option,
  none, some, ◌>>=◌,
}
use rob320_p.Base.Int.{ℤ, pos, negsuc}
use rob320_p.Io.{Answer, bytes, interrupted, would_block, broken}
use rob320_p.Util.Duration.{Duration}
use rob320_p.Ipc.Kernel.{Kernel, handled, by_default}
use rob320_p.Ipc.File
use rob320_p.Ipc.File.{File}
use rob320_p.Ipc.Pipe
use rob320_p.Ipc.Pipe.{Pipe, no_pipe, as_file}
use rob320_p.Ipc.Ownership.{update}

-- SignalNotifier: `pipe[0]`, `pipe[1]` and `is_init`
pub record SignalNotifier : Type 0 where
  pub reads : Pipe
  pub writes : Pipe
  pub is_init : Bool

-- A Signal is its signum_, an index from 0 to 31, or -1.
pub record Signal : Type 0 where
  pub index : ℤ

-- The index, if it is within the array.
abbrev pub slot : ℤ → Option ℕ
slot (pos n) = if ltb n 32 then some n else none
slot (negsuc n) = none

-- The index of a signal number from 1 to 32.
abbrev pub slot_of_signum : ℤ → Option ℕ
slot_of_signum (pos zero) = none
slot_of_signum (pos (suc n)) = if ltb n 32 then some n else none
slot_of_signum (negsuc n) = none

unfoldable pub signum : Signal → ℤ
signum x = elim (slot x.index) [ none ↦ negsuc 0 | some n ↦ pos (n + 1) ]

module _ (k : Kernel) where
  open k use {State}

  pub record World : Type 0 where
    pub notifier : ℕ → SignalNotifier
    pub kernel : State

  -- `notifier[i].pipe = …`: the two Pipes are move-assigned, and the array that was assigned is destroyed.
  unfoldable pub assign_pipes : Pipe → Pipe → SignalNotifier → State → SignalNotifier × State
  unfolding Pipe.move_assign Pipe.destroy
  assign_pipes reads writes entry s =
      let (r, r', s₁) = Pipe.move_assign k entry.reads reads s in
      let (w, w', s₂) = Pipe.move_assign k entry.writes writes s₁ in
      (record entry { reads = r; writes = w }, Pipe.destroy k r' (Pipe.destroy k w' s₂))

  -- The exceptions of the constructor, or the object.
  pub data Constructed : Type 0 where
    out_of_range taken : Constructed
    constructed : Signal → World → Constructed

  -- From `notifier[idx].pipe = Pipe::create()` on.
  unfoldable pub manage : ℕ → World → World
  unfolding assign_pipes Pipe.create
  manage i w =
      let (reads, writes, s) = Pipe.create k w.kernel in
      let (entry, s') = assign_pipes reads writes (w.notifier i) s in
      record {
        notifier = update i (record entry { is_init = true }) w.notifier;
        kernel = k.signal (i + 1) handled s';
      }

  -- Signal(int signum)
  unfoldable pub construct : ℤ → World → Constructed
  unfolding manage
  construct signum w = elim (slot_of_signum signum) [
    | none ↦ out_of_range
    | some i ↦
        if (w.notifier i).is_init
        then taken
        else constructed (record { index = pos i }) (manage i w)
  ]

  unfoldable pub forget : ℕ → World → World
  unfolding assign_pipes
  forget i w =
      let (entry, s) =
        assign_pipes no_pipe no_pipe (record (w.notifier i) { is_init = false }) w.kernel in
      record { notifier = update i entry w.notifier; kernel = k.signal (i + 1) by_default s }

  -- `if (signum_ >= 0 && signum_ < 32) if (notifier[signum_].is_init) { … }`
  unfoldable pub release : ℤ → World → World
  unfolding forget
  release index w = elim (slot index) [
    | none ↦ w
    | some i ↦ if (w.notifier i).is_init then forget i w else w
  ]

  -- ~Signal()
  unfoldable pub destroy : Signal → World → World
  unfolding release
  destroy x w = release x.index w

  -- Signal(Signal &&): the new object, and the source
  unfoldable pub move : Signal → Signal × Signal
  move other = (record { index = other.index }, record { index = negsuc 0 })

  -- operator=(Signal &&), of another object: this object and the source
  unfoldable pub move_assign : Signal → Signal → World → Signal × Signal × World
  unfolding release
  move_assign x other w =
      (record { index = other.index }, record { index = negsuc 0 }, release x.index w)

  -- The kernel's part: a signal that is delivered is a call of `handler`.
  unfoldable pub raise : Signal → World → Bool × World
  raise x w = elim (slot x.index) [
    | none ↦ (false, w)
    | some i ↦ ((k.raise (i + 1) w.kernel).0, record w { kernel = (k.raise (i + 1) w.kernel).1 })
  ]

  unfoldable pub kill : ℕ → Signal → World → Bool × World
  kill pid x w = elim (slot x.index) [
    | none ↦ (false, w)
    | some i ↦
        ((k.kill pid (i + 1) w.kernel).0, record w { kernel = (k.kill pid (i + 1) w.kernel).1 })
  ]

  -- The loop that reads 64 bytes at a time; `none` means that the fuel ran out.
  unfoldable pub drain : ℕ → File → State → Option State
  unfolding File.read
  drain zero f s = none
  drain (suc fuel) f s = elim (File.read k f 64 s).0 [
    | none ↦ some s
    | some (bytes []) ↦ some (File.read k f 64 s).1
    | some (bytes (b ∷ bs)) ↦ drain fuel f (File.read k f 64 s).1
    | some interrupted ↦ some (File.read k f 64 s).1
    | some would_block ↦ some (File.read k f 64 s).1
    | some broken ↦ some (File.read k f 64 s).1
  ]

  -- From `was_nonblocking` on.
  unfoldable pub drain_all : ℕ → File → State → Option State
  unfolding drain File.is_nonblocking File.set_nonblocking
  drain_all fuel f s = drain fuel f (File.set_nonblocking k f true s) >>= λ s'.
      some (File.set_nonblocking k f (File.is_nonblocking k f s) s')

  -- What `wait` does with the answer of the read end.
  unfoldable pub after_wait : ℕ → File → Bool × State → Option (Bool × State)
  unfolding drain_all
  after_wait fuel f (false, s) = some (false, s)
  after_wait fuel f (true, s) = drain_all fuel f s >>= λ s'. some (true, s')

  unfoldable pub wait_pipe : ℕ → File → Duration → State → Option (Bool × State)
  unfolding File.wait_for_readable after_wait
  wait_pipe fuel f d s = after_wait fuel f (File.wait_for_readable k f d s)

  unfoldable pub wait : ℕ → Signal → Duration → World → Option (Bool × World)
  unfolding wait_pipe
  wait fuel x d w = elim (slot x.index) [
    | none ↦ some (false, w)
    | some i ↦
        if (w.notifier i).is_init
        then (wait_pipe fuel (as_file (w.notifier i).reads) d w.kernel >>= λ r.
            some (r.0, record w { kernel = r.1 }))
        else some (false, w)
  ]

  -- Signal::handler
  unfoldable pub handler : ℤ → World → World
  handler signum w = elim (slot_of_signum signum) [
    | none ↦ w
    | some i ↦
        if (w.notifier i).is_init
        then elim (w.notifier i).writes.fd [
          | negsuc n ↦ w
          | pos n ↦ record w { kernel = (k.write n (1 ∷ []) w.kernel).1 }
        ]
        else w
  ]
