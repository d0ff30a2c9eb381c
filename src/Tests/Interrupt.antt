-- ===== src/Tests/Interrupt.antt =====
-- A SIGINT while MBotDriver reads, over a kernel whose standard input gives zeros without end and where only
-- the descriptors 3 and 4 are the pipe.
use rob320_p.Base.{
  suc, ◌^◌, ◌≢◌, ◌≤◌, [], ◌∷◌, true, false, some, All, IsByte, length, replicate, ◌==◌,
  if◌then◌else◌, refl, arith,
}
use mathlib.Core.Path.{subst}
use rob320_p.Base.Int.{pos}
use rob320_p.Io.{bytes, interrupted}
use rob320_p.Ipc.Kernel.{Kernel}
use rob320_p.Ipc.File.{File, of_fd, write}
use rob320_p.Ipc.Flags.{KeepsFlags}
use rob320_p.Ipc.Signal.{World, handler}
use rob320_p.Ipc.Signal.Waits.{IsPipe}
use rob320_p.Driver.Live.{rounds_polled}
use rob320_p.Driver.Live.Prompt.{EndsSoon}
use rob320_p.Programs.MBotDriver.Live.{sigint, as_channel, as_notification, as_robot}
use rob320_p.Programs.MBotDriver.Live.Stops.{ReadsBytes, stdin-IsChannel}
use rob320_p.Programs.MBotDriver.Live.Interrupt.{
  on_sigint, LeavesPipe, IsPending, pending-IsRaised, sigint-EndsSoon,
}
use rob320_p.Tests.Live.{bytes_same}
use rob320_p.Tests.ToyKernel.{toy_kernel, toy_kernel-IsPipe, toy_kernel-KeepsFlags}

abbrev desk : Kernel
unfolding toy_kernel
desk = record toy_kernel {
  read = λ n size s. if n == 3 then toy_kernel.read n size s else (bytes (0 ∷ []), s);
  write = λ n bs s. if n == 4 then toy_kernel.write n bs s else (pos (length bs), s);
}

abbrev desk-IsPipe : IsPipe desk 3 4
unfolding toy_kernel toy_kernel-IsPipe
desk-IsPipe = record {
  pending = toy_kernel-IsPipe.pending;
  poll_pending = toy_kernel-IsPipe.poll_pending;
  poll_empty = toy_kernel-IsPipe.poll_empty;
  read_pending = toy_kernel-IsPipe.read_pending;
  read_empty = toy_kernel-IsPipe.read_empty;
  get_flags-read = toy_kernel-IsPipe.get_flags-read;
  pending-set_flags = toy_kernel-IsPipe.pending-set_flags;
  pending-write = toy_kernel-IsPipe.pending-write;
  get_flags-write = toy_kernel-IsPipe.get_flags-write;
}

abbrev desk-KeepsFlags : KeepsFlags desk
unfolding toy_kernel
desk-KeepsFlags = record { get_flags-set_flags = toy_kernel-KeepsFlags.get_flags-set_flags }

abbrev desk-ReadsBytes : ReadsBytes desk
unfolding toy_kernel
desk-ReadsBytes = record {
  read_short = λ n s bs e. subst (λ b. length b ≤ suc n) (bytes_same e) (omega arith);
  read_bytes = λ n s bs e. subst (All IsByte) (bytes_same e) (omega arith, tt);
}

abbrev port : File
port = of_fd (pos 5)

not_interrupted : bytes (0 ∷ []) ≢ interrupted
not_interrupted e = ground (arith, e)

abbrev desk-LeavesPipe : LeavesPipe desk 3 4 desk-IsPipe port
unfolding toy_kernel toy_kernel-IsPipe write
desk-LeavesPipe = record {
  read_pending = λ n s. refl;
  read_flags = λ n s. refl;
  write_pending = λ bs s. refl;
  write_flags = λ bs s. refl;
  goes_on = λ n s. not_interrupted;
}

abbrev desk_world : World desk
unfolding toy_kernel
desk_world = record {
  notifier = λ n. record {
    reads = record { fd = pos 3; read_end = true };
    writes = record { fd = pos 4; read_end = false };
    is_init = true;
  };
  kernel = record { opened = 0 ∷ 3 ∷ 4 ∷ 5 ∷ []; flags = λ n. 2; waiting = 0 };
}

sigint-EndsSoon_example :
    EndsSoon
      (as_channel desk (of_fd (pos 0)))
      (some (as_notification desk 70 on_sigint))
      (as_robot desk port (replicate 28 0) refl)
      (stdin-IsChannel desk desk-ReadsBytes)
      (IsPending desk desk-ReadsBytes 3 4 desk-IsPipe desk-KeepsFlags port desk-LeavesPipe
        (replicate 28 0)
        refl
        70
        2)
      (pending-IsRaised desk desk-ReadsBytes 3 4 desk-IsPipe desk-KeepsFlags port desk-LeavesPipe
        (replicate 28 0)
        refl
        70
        2)
      []
      (rounds_polled
        (World desk)
        (as_channel desk (of_fd (pos 0)))
        (some (as_notification desk 70 on_sigint))
        (as_robot desk port (replicate 28 0) refl)
        1
        (2 ^ 32)
        []
        (handler desk sigint desk_world))
unfolding toy_kernel toy_kernel-IsPipe
sigint-EndsSoon_example =
    sigint-EndsSoon desk desk-ReadsBytes 3 4 desk-IsPipe desk-KeepsFlags port desk-LeavesPipe
      (replicate 28 0) refl 70 2 0 (2 ^ 32) [] desk_world (omega arith) refl refl refl refl
      (omega arith)
