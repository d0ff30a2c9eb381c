-- ===== src/Programs/MBotDriver/Live.antt =====
-- The function main of src/mbot_driver/main.cpp on its own objects: an MBot, a File of the standard input and a
-- Signal, over one kernel. The calls are those of main; what the thread of the MBot does between them is a part of
-- what the kernel, of which nothing is assumed, does in them, and in the destructor `ticks` are the rounds that are
-- left to it. Its writes among those of drive are in MBot.Line.
pub mod Stops
pub mod Interrupt
use rob320_p.Base.{ℕ, ◌≡◌, ◌≢◌, List, [], ◌∷◌, length, Bool, true, false, Option, none, some, refl}
use rob320_p.Base.Int.{ℤ, pos}
use rob320_p.Messages.Twist2DStamped.{Twist2DStamped}
use rob320_p.Io.{Answer, broken}
use rob320_p.Io.Interfaces.{Channel, Notification, MBotBase}
use rob320_p.Ipc.Kernel.{Kernel}
use rob320_p.Ipc.File
use rob320_p.Ipc.File.{File, of_fd, ok}
use rob320_p.Ipc.Signal
use rob320_p.Ipc.Signal.{Signal, World, SignalNotifier, out_of_range, taken, constructed}
use rob320_p.MBot.Timesync.{Tick}
use rob320_p.MBot.Drive.{drive, drive-IsSafe}
use rob320_p.MBot.Life.{Termios, Terminal, MBot, construct, destroy}
use rob320_p.Driver.Live
use rob320_p.Driver.Live.{spin, returned, hanging, faulted, unfinished}

-- The value, where there is one.
abbrev pub the {ℓ} : {A : Type ℓ} → (r : Option A) → r ≢ none → A
the none h = absurd (h refl)
the (some a) h = a

-- SIGINT
abbrev pub sigint : ℤ
sigint = pos 2

-- Where a File has no descriptor, read returns -1 without a call.
abbrev pub answer : Option Answer → Answer
answer none = broken
answer (some a) = a

module _ (k : Kernel) where
  abbrev pub with_kernel : World k → k.State → World k
  with_kernel w s = record w { kernel = s }

  -- A File as an IO.
  unfoldable pub as_channel : File → Channel (World k)
  unfolding File.read File.write File.wait_for_writable File.wait_for_readable File.set_nonblocking
      File.is_nonblocking
  as_channel f = record {
    read = λ n w. (answer (File.read k f n w.kernel).0, with_kernel w (File.read k f n w.kernel).1);
    write = λ bs w. ((File.write k f bs w.kernel).0, with_kernel w (File.write k f bs w.kernel).1);
    wait_for_writable = λ d w. (
      (File.wait_for_writable k f d w.kernel).0,
      with_kernel w (File.wait_for_writable k f d w.kernel).1,
    );
    wait_for_readable = λ d w. (
      (File.wait_for_readable k f d w.kernel).0,
      with_kernel w (File.wait_for_readable k f d w.kernel).1,
    );
    set_nonblocking = λ status w. with_kernel w (File.set_nonblocking k f status w.kernel);
    is_nonblocking = λ w. File.is_nonblocking k f w.kernel;
  }

  -- A Signal as a Notification, with fuel for the reads of a wait.
  unfoldable pub as_notification : ℕ → Signal → Notification (World k)
  unfolding Signal.wait Signal.raise
  as_notification fuel x = record {
    raise = λ w. Signal.raise k x w;
    wait = λ d w. Signal.wait k fuel x d w;
  }

  -- An MBot; `old` is what the memory has in the buffer of drive, which has 28 bytes.
  unfoldable pub as_robot : File → (old : List ℕ) → length old ≡ 28 → MBotBase (World k)
  unfolding drive ok
  as_robot f old room = record {
    is_ok = λ w. ok f;
    drive = λ cmd w.
        with_kernel w (the (drive k f cmd old w.kernel) (drive-IsSafe k f cmd old w.kernel room));
  }

  -- The exit code; an exception; the end of main, with the commands and the state; or no end.
  pub data Run : Type 0 where
    exits : ℕ → Option k.State → Run
    throws : Run
    ends : List Twist2DStamped → World k → Option k.State → Run
    runs_on crashes : Run

  module _ (t : Terminal k.State) (options : Termios) (old : List ℕ) (room : length old ≡ 28)
      (ticks : List Tick) where
    -- The loop, and behind it the destructors of the Signal and of the MBot; the File of the standard input
    -- closes nothing.
    unfoldable pub loop : ℕ → ℕ → ℕ → MBot → Signal → World k → Run
    unfolding spin as_channel as_notification as_robot destroy Signal.destroy
    loop fuel reads drains m x w =
        elim (spin (World k) (as_channel (of_fd (pos 0))) (some (as_notification drains x))
          (as_robot m.file old room) fuel reads w) [
            | returned drives w' ↦ ends drives w' (destroy k m ticks (Signal.destroy k x w').kernel)
            | hanging drives ↦ runs_on
            | faulted ↦ crashes
            | unfinished ↦ runs_on
          ]

    unfoldable pub with_signal : ℕ → ℕ → ℕ → MBot → World k → Run
    unfolding loop Signal.construct
    with_signal fuel reads drains m w = elim (Signal.construct k sigint w) [
      | out_of_range ↦ throws
      | taken ↦ throws
      | constructed x w' ↦ loop fuel reads drains m x w'
    ]

    unfoldable pub main : ℕ → ℕ → ℕ → World k → Run
    unfolding construct ok with_signal
    main fuel reads drains w = elim (ok (construct k t options w.kernel).0.file) [
      | false ↦
          exits 1
            (destroy k (construct k t options w.kernel).0 ticks (construct k t options w.kernel).1)
      | true ↦
          with_signal fuel reads drains (construct k t options w.kernel).0
            (with_kernel w (construct k t options w.kernel).1)
    ]
