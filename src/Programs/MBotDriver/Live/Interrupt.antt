-- ===== src/Programs/MBotDriver/Live/Interrupt.antt =====
-- How soon the loop of src/mbot_driver/main.cpp ends once the handler of SIGINT has run.
use rob320_p.Base.{
  ℕ, suc, ◌^◌, ◌≡◌, ◌≢◌, ◌≤◌, ◌<◌, List, [], ◌∷◌, true, some, length, refl, arith, ap, ◌∙◌, sym,
}
use mathlib.Core.Path.{subst}
use rob320_p.Base.Int.{pos}
use rob320_p.Messages.Twist2DStamped.{Twist2DStamped}
use rob320_p.Io.{interrupted}
use rob320_p.Io.Interfaces.{no_time}
use rob320_p.Ipc.Kernel.{Kernel}
use rob320_p.Ipc.File
use rob320_p.Ipc.File.{File, of_fd}
use rob320_p.Ipc.Flags.{KeepsFlags}
use rob320_p.Ipc.Signal.{Signal, World, handler}
use rob320_p.Ipc.Signal.Waits.{IsPipe, reads, lifted, wait_pipe_pending, wait_of, handler_of}
use rob320_p.Driver.Live.{notif_ready, rounds_polled}
use rob320_p.Driver.Live.Prompt.{IsRaised, EndsSoon, polled-EndsSoon}
use rob320_p.Programs.MBotDriver.Live.{sigint, as_channel, as_notification, as_robot}
use rob320_p.Programs.MBotDriver.Live.Stops.{ReadsBytes, stdin-IsChannel, drive_lem}

-- The Signal of SIGINT.
abbrev pub on_sigint : Signal
on_sigint = record { index = pos 1 }

-- Reads of the standard input and writes to the port of `f` leave the pipe with the read end `r` alone, and
-- the reads are not interrupted, which is signal(7) for a handler that `signal` has set.
pub record LeavesPipe (k : Kernel) (r w : ℕ) (pipe : IsPipe k r w) (f : File) : Type 0 where
  pub read_pending : (n : ℕ) (s : k.State) → pipe.pending (k.read 0 n s).1 ≡ pipe.pending s
  pub read_flags : (n : ℕ) (s : k.State) → k.get_flags r (k.read 0 n s).1 ≡ k.get_flags r s
  pub write_pending :
      (bs : List ℕ) (s : k.State) → pipe.pending (File.write k f bs s).1 ≡ pipe.pending s
  pub write_flags :
      (bs : List ℕ) (s : k.State) → k.get_flags r (File.write k f bs s).1 ≡ k.get_flags r s
  pub goes_on : (n : ℕ) (s : k.State) → (k.read 0 n s).0 ≢ interrupted

module _ (k : Kernel) (reads_bytes : ReadsBytes k) (r w : ℕ) (pipe : IsPipe k r w)
    (keeps : KeepsFlags k) (f : File) (leaves : LeavesPipe k r w pipe f) (old : List ℕ)
    (room : length old ≡ 28) (drains flags : ℕ) where
  -- The pipe of SIGINT has a byte, and fewer than a wait may read.
  pub record IsPending (v : World k) : Type 0 where
    is_init : (v.notifier 1).is_init ≡ true
    reads_fd : (v.notifier 1).reads.fd ≡ pos r
    flags_are : k.get_flags r v.kernel ≡ pos flags
    more : 0 < pipe.pending v.kernel
    few : pipe.pending v.kernel < drains

  -- A step that leaves the table and the pipe alone.
  kept :
      (v : World k) (s : k.State)
      → pipe.pending s ≡ pipe.pending v.kernel
      → k.get_flags r s ≡ k.get_flags r v.kernel
      → IsPending v
      → IsPending (record v { kernel = s })
  kept v s p g h = record {
    is_init = h.is_init;
    reads_fd = h.reads_fd;
    flags_are = g ∙ h.flags_are;
    more = subst (λ n. 0 < n) (sym p) h.more;
    few = subst (λ n. n < drains) (sym p) h.few;
  }

  pub pending-IsRaised :
      IsRaised
        (as_channel k (of_fd (pos 0)))
        (some (as_notification k drains on_sigint))
        (as_robot k f old room)
        IsPending
  unfolding as_channel as_notification notif_ready File.read
  pending-IsRaised = record {
    ready = λ v h.
        let (s', e, _, _) =
          wait_pipe_pending k r w pipe keeps drains flags no_time v.kernel h.more h.few
            h.flags_are in
        (
          record v { kernel = s' },
          wait_of k r w pipe keeps on_sigint 1 refl (omega arith) drains no_time v h.is_init
                h.reads_fd
              ∙ ap (lifted k r w pipe keeps v) e,
        );
    read_raised = λ n v h.
        kept v _ (leaves.read_pending (suc n) v.kernel) (leaves.read_flags (suc n) v.kernel) h;
    goes_on = λ n v h. leaves.goes_on (suc n) v.kernel;
    drive_raised = λ cmd v h.
        subst IsPending (sym (drive_lem k f cmd old room v))
          (kept v _ (leaves.write_pending _ v.kernel) (leaves.write_flags _ v.kernel) h);
  }

  -- On the File of the standard input, the Signal of SIGINT and the MBot of mbot_driver, over a kernel
  -- that is POSIX in the flags and in a pipe without other processes, and where reads of the standard
  -- input store bytes, no more than asked for, and are not interrupted, and these reads and the writes
  -- to the port leave the pipe and its flags alone: if the entry of SIGINT has this pipe, the handler
  -- of SIGINT runs just behind the poll of a round, each read_exact may read 2 ^ 32 times, and the fuel
  -- of a wait is above the number of bytes in the pipe, then spin returns within this round and the
  -- next, and has given the robot a stop, or one command and a stop.
  pub sigint-EndsSoon :
      (fuel reads : ℕ) (drives : List Twist2DStamped) (v : World k)
      → 2 ^ 32 ≤ reads
      → (v.notifier 1).is_init ≡ true
      → (v.notifier 1).reads.fd ≡ pos r
      → (v.notifier 1).writes.fd ≡ pos w
      → k.get_flags r v.kernel ≡ pos flags
      → pipe.pending (k.write w (1 ∷ []) v.kernel).1 < drains
      → EndsSoon
          (as_channel k (of_fd (pos 0)))
          (some (as_notification k drains on_sigint))
          (as_robot k f old room)
          (stdin-IsChannel k reads_bytes)
          IsPending
          pending-IsRaised
          drives
          (rounds_polled
            (World k)
            (as_channel k (of_fd (pos 0)))
            (some (as_notification k drains on_sigint))
            (as_robot k f old room)
            (suc fuel)
            reads
            drives
            (handler k sigint v))
  sigint-EndsSoon fuel reads drives v l init fd fd' g few =
      polled-EndsSoon (as_channel k (of_fd (pos 0))) (some (as_notification k drains on_sigint))
        (as_robot k f old room) (stdin-IsChannel k reads_bytes) IsPending pending-IsRaised fuel
        reads drives (handler k sigint v) l
        (subst IsPending
          (sym (handler_of k r w pipe keeps on_sigint 1 refl (omega arith) v init fd'))
          (record {
            is_init = init;
            reads_fd = fd;
            flags_are = pipe.get_flags-write (1 ∷ []) v.kernel ∙ g;
            more = pipe.pending-write 1 v.kernel;
            few = few;
          }))
