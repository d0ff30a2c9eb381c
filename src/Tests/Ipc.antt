-- ===== src/Tests/Ipc.antt =====
-- The classes of src/rix/ipc on a small kernel.
use rob320_p.Base.{◌<◌, ℕ, ◌≡◌, [], ◌∷◌, true, false, refl, arith, some}
use rob320_p.Base.Int.{pos, negsuc}
use rob320_p.Ipc.File
use rob320_p.Ipc.File.{
  open_file, set_nonblocking, is_nonblocking, timeout_ms, destroy, with_nonblock, close_fd,
}
use rob320_p.Ipc.Flags.{is_nonblocking-set_nonblocking, IsEnough, timeout_ms-IsEnough}
use rob320_p.Ipc.Objects.{
  World, Reach, opened, destroyed, here, next, set_file, file, AllIdle, Reach-no_leak, Reach-Owns,
}
use rob320_p.Ipc.Signal
use rob320_p.Ipc.Signal.{Signal, wait, handler, construct, manage, assign_pipes}
use rob320_p.Ipc.Signal.Program
use rob320_p.Ipc.Signal.Program.{Objects, IsStart, made, Reach-managed, Reach-taken}
use rob320_p.Ipc.Ownership.{update}
use rob320_p.Ipc.Pipe.{no_pipe}
use rob320_p.Ipc.Signal.Waits.{wait-handler}
use rob320_p.Util.Duration.{Duration}
use rob320_p.Tests.ToyKernel.{
  Machine, toy_kernel, toy_kernel-IsPosix, toy_kernel-KeepsFlags, toy_kernel-IsPipe, contains,
  fresh, total,
}

abbrev machine : Machine
machine = record { opened = 0 ∷ []; flags = λ n. 2; waiting = 0 }

abbrev before : World toy_kernel
unfolding toy_kernel
before = record { fds = λ i. negsuc 0; kernel = machine }

abbrev during : World toy_kernel
unfolding toy_kernel
during = set_file toy_kernel 5 (open_file toy_kernel [] 0 0 machine) before

abbrev after : World toy_kernel
unfolding toy_kernel
after =
    set_file toy_kernel 5 (File.empty, destroy toy_kernel (file toy_kernel during 5) during.kernel)
      during

opening : Reach toy_kernel before during
unfolding toy_kernel before during
opening = next here (opened 5 [] 0 0 refl refl)

closing : Reach toy_kernel before after
unfolding toy_kernel after
closing = next opening (destroyed 5 refl)

idle_before : AllIdle toy_kernel before
unfolding before
idle_before i = refl

idle_after : AllIdle toy_kernel after
unfolding before during after
idle_after i = ground arith

Reach-no_leak_example :
    toy_kernel-IsPosix.is_open after.kernel 1 ≡ toy_kernel-IsPosix.is_open before.kernel 1
unfolding toy_kernel toy_kernel-IsPosix before contains
Reach-no_leak_example =
    Reach-no_leak toy_kernel toy_kernel-IsPosix before after refl idle_before closing idle_after 1

Reach-Owns_example :
    (toy_kernel-IsPosix.is_open during.kernel 1 ≡ true)
    × (toy_kernel-IsPosix.is_open before.kernel 1 ≡ false)
unfolding toy_kernel toy_kernel-IsPosix before contains during open_file fresh total
Reach-Owns_example =
    Reach-Owns toy_kernel toy_kernel-IsPosix before during 5 0 refl idle_before opening refl

abbrev file_1 : File.File
file_1 = record { fd = pos 1 }

is_nonblocking-set_nonblocking_example :
    (is_nonblocking toy_kernel file_1 (set_nonblocking toy_kernel file_1 true before.kernel) ≡ true)
    × (toy_kernel.get_flags 1 (
          set_nonblocking toy_kernel file_1
            (is_nonblocking toy_kernel file_1 before.kernel)
            (set_nonblocking toy_kernel file_1 true before.kernel))
        ≡ pos 2)
unfolding toy_kernel before
is_nonblocking-set_nonblocking_example =
    is_nonblocking-set_nonblocking toy_kernel toy_kernel-KeepsFlags file_1 1 refl true before.kernel
      2 refl

timeout_ms-IsEnough_example : IsEnough (pos 1_500_000) (timeout_ms (record { d = pos 1_500_000 }))
timeout_ms-IsEnough_example = timeout_ms-IsEnough (record { d = pos 1_500_000 })

-- SIGINT, whose pipe is the one of the small kernel.
abbrev interrupt : Signal
interrupt = record { index = pos 1 }

abbrev managed : Signal.World toy_kernel
unfolding toy_kernel
managed = record {
  notifier = λ i. record {
    reads = record { fd = pos 3; read_end = true };
    writes = record { fd = pos 4; read_end = false };
    is_init = true;
  };
  kernel = machine;
}

abbrev no_time : Duration
no_time = record { d = pos 0 }

wait-handler_example :
    (v : Signal.World toy_kernel) × (wait toy_kernel 5 interrupt no_time
        (handler toy_kernel (pos 2) managed)
      ≡ some (true, v))
    × (wait toy_kernel 5 interrupt no_time v ≡ some (false, v))
    × (toy_kernel.get_flags 3 v.kernel ≡ pos 2)
unfolding toy_kernel managed toy_kernel-IsPipe
wait-handler_example =
    wait-handler toy_kernel 3 4 toy_kernel-IsPipe toy_kernel-KeepsFlags interrupt 1 refl
      (omega arith) 5 2 no_time no_time managed refl refl refl refl (omega arith)

-- No Signal yet, and then one for SIGINT.
abbrev no_signals : Objects toy_kernel
unfolding toy_kernel
no_signals = record {
  indices = λ i. negsuc 0;
  world = record {
    notifier = λ i. record { reads = no_pipe; writes = no_pipe; is_init = false };
    kernel = machine;
  };
}

abbrev one_signal : Objects toy_kernel
unfolding no_signals manage
one_signal = record {
  indices = update 0 (pos 1) no_signals.indices;
  world = manage toy_kernel 1 no_signals.world;
}

starting : IsStart toy_kernel no_signals
unfolding no_signals
starting = (λ i. refl, λ n. refl)

managing : Program.Reach toy_kernel no_signals one_signal
unfolding construct no_signals one_signal
managing =
    Program.next Program.here
      (made 0 (pos 2) interrupt (manage toy_kernel 1 no_signals.world) refl refl refl)

Reach-managed_example :
    (1 < 32) × ((one_signal.world.notifier 1).is_init ≡ true) × (◌≡◌ {A = ℕ} 0 0)
unfolding one_signal no_signals
Reach-managed_example =
    Reach-managed toy_kernel no_signals one_signal 0 0 1 starting managing refl refl

Reach-taken_example : (i : ℕ) × (one_signal.indices i ≡ pos 1)
unfolding one_signal no_signals construct manage assign_pipes
Reach-taken_example = Reach-taken toy_kernel no_signals one_signal 1 starting managing refl
