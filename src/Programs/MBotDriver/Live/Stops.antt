-- ===== src/Programs/MBotDriver/Live/Stops.antt =====
-- How main of src/mbot_driver/main.cpp ends.
use rob320_p.Base.{
  ℕ, suc, ◌≡◌, ◌≤◌, List, some, All, IsByte, length, map, refl, ap, ◌∙◌, ◌≢◌, Option, none,
  Bool-cases, inl, inr,
}
use rob320_p.Base.Int.{pos}
use rob320_p.Messages.Twist2DStamped.{Twist2DStamped}
use rob320_p.Io.{bytes}
use rob320_p.Ipc.Kernel.{Kernel}
use rob320_p.Ipc.File
use rob320_p.Ipc.File.{File, of_fd, ok}
use rob320_p.Ipc.Signal
use rob320_p.Ipc.Signal.{Signal, World, Constructed, out_of_range, taken, constructed}
use rob320_p.MBot.Packet.{packet}
use rob320_p.MBot.Timesync.{Tick, tick_packet, writes, timesync-writes}
use rob320_p.MBot.Drive.{twist_bytes, mbot_vel_cmd, drive-packet, drive-IsSafe}
use rob320_p.MBot.Life.{Termios, Terminal, MBot, construct, destroy}
use rob320_p.Driver.{stop}
use rob320_p.Driver.Safety.{EndsInStop}
use rob320_p.Driver.Live.{Spin, spin, returned, hanging, faulted, unfinished}
use rob320_p.Driver.Live.Mirrors.{IsChannel}
use rob320_p.Driver.Live.Mirrors.Stopped.{EndsStopped}
use rob320_p.Driver.Live.Mirrors.Safe.{spin-EndsStopped}
use rob320_p.Programs.MBotDriver.Live.{
  sigint, with_kernel, the, as_channel, as_notification, as_robot, Run, exits, throws, ends,
  runs_on, crashes, loop, with_signal, main,
}

-- A read of the standard input stores bytes, and no more than it was asked for.
pub record ReadsBytes (k : Kernel) : Type 0 where
  pub read_short :
      (n : ℕ) (s : k.State) (bs : List ℕ) → (k.read 0 (suc n) s).0 ≡ bytes bs → length bs ≤ suc n
  pub read_bytes :
      (n : ℕ) (s : k.State) (bs : List ℕ) → (k.read 0 (suc n) s).0 ≡ bytes bs → All IsByte bs

the_lem : {A : Type 0} (r : Option A) (h : r ≢ none) (a : A) → r ≡ some a → the r h ≡ a
the_lem none h a e = absurd (h refl)
the_lem (some b) h a e = cc

pub drive_lem :
    (k : Kernel) (f : File) (cmd : Twist2DStamped) (old : List ℕ) (room : length old ≡ 28)
    (w : World k)
    → (as_robot k f old room).drive cmd w
      ≡ with_kernel k w (File.write k f (packet (twist_bytes cmd) mbot_vel_cmd) w.kernel).1
unfolding as_robot
drive_lem k f cmd old room w =
    ap (with_kernel k w) (
      the_lem _ (drive-IsSafe k f cmd old w.kernel room) _ (drive-packet k f cmd old w.kernel room))

module _ (k : Kernel) (reads_bytes : ReadsBytes k) where
  pub stdin-IsChannel : IsChannel (as_channel k (of_fd (pos 0)))
  unfolding as_channel File.read
  stdin-IsChannel = record {
    short = λ n w bs e. reads_bytes.read_short n w.kernel bs e;
    are_bytes = λ n w bs e. reads_bytes.read_bytes n w.kernel bs e;
  }

  module _ (t : Terminal k.State) (options : Termios) (old : List ℕ) (room : length old ≡ 28)
      (ticks : List Tick) (buffers : All (λ (t : Tick). length t.old ≡ 16) ticks) where
    -- The last packet that main has written is a stop.
    abbrev pub Stopping : MBot → Run k → Type 0
    Stopping m (exits n none) = ⊥
    Stopping m (exits n (some s)) = Unit {0}
    Stopping m throws = Unit {0}
    Stopping m (ends drives w none) = ⊥
    Stopping m (ends drives w (some s)) =
        EndsInStop drives
        × ((before : World k) × (w
              ≡ with_kernel k before
                  (File.write k m.file (packet (twist_bytes stop) mbot_vel_cmd) before.kernel).1))
    Stopping m runs_on = Unit {0}
    Stopping m crashes = ⊥

    -- The destructor of an MBot comes to its end.
    destroyed : (m : MBot) (s : k.State) → (s' : k.State) × (destroy k m ticks s ≡ some s')
    unfolding destroy
    destroyed m s = elim (Bool-cases m.thread) [
      | inl joinable ↦ (
        File.destroy k m.file (writes k m.file (map tick_packet ticks) s),
        rw (destroy, joinable, timesync-writes k m.file ticks s buffers) refl,
      )
      | inr none_left ↦ (File.destroy k m.file s, rw (destroy, none_left) refl)
    ]

    spun-Stopping :
        (fuel reads drains : ℕ) (m : MBot) (x : Signal) (w : World k) (r : Spin (World k))
        → spin
            (World k)
            (as_channel k (of_fd (pos 0)))
            (some (as_notification k drains x))
            (as_robot k m.file old room)
            fuel
            reads
            w
          ≡ r
        → EndsStopped
            (as_channel k (of_fd (pos 0)))
            (some (as_notification k drains x))
            (as_robot k m.file old room)
            r
        → Stopping m (loop k t options old room ticks fuel reads drains m x w)
    unfolding loop
    spun-Stopping fuel reads drains m x w (returned drives w') e (last, (before, f)) =
        let (s', g) = destroyed m (Signal.destroy k x w').kernel in
        rw (loop, e, g) (last, (before, f ∙ drive_lem k m.file stop old room before))
    spun-Stopping fuel reads drains m x w (hanging drives) e h = rw (loop, e) tt
    spun-Stopping fuel reads drains m x w faulted e h = absurd h
    spun-Stopping fuel reads drains m x w unfinished e h = rw (loop, e) tt

    signal-Stopping :
        (fuel reads drains : ℕ) (m : MBot) (w : World k) (c : Constructed k)
        → Signal.construct k sigint w ≡ c
        → Stopping m (with_signal k t options old room ticks fuel reads drains m w)
    unfolding with_signal
    signal-Stopping fuel reads drains m w out_of_range e = rw (with_signal, e) tt
    signal-Stopping fuel reads drains m w taken e = rw (with_signal, e) tt
    signal-Stopping fuel reads drains m w (constructed x w') e =
        rw (with_signal, e)
          (spun-Stopping fuel reads drains m x w' _ refl (
            spin-EndsStopped (as_channel k (of_fd (pos 0))) (some (as_notification k drains x))
              (as_robot k m.file old room) stdin-IsChannel fuel reads w'))

    -- main of mbot_driver on its own objects, over any kernel whose reads of the standard input store
    -- bytes and no more than they were asked for, and any terminal, with buffers of 28 bytes in drive
    -- and of 16 in each round of timesync that is left to the destructor: neither main nor the
    -- destructor makes an access outside of a buffer; if main comes to its end, the last command was a
    -- stop, and the last call that main made before the destructors was the write of the packet of a
    -- stop to the port.
    pub main-Stopping :
        (fuel reads drains : ℕ) (w : World k)
        → Stopping
            (construct k t options w.kernel).0
            (main k t options old room ticks fuel reads drains w)
    unfolding main
    main-Stopping fuel reads drains w =
        elim (Bool-cases (ok (construct k t options w.kernel).0.file)) [
          | inl good ↦
              rw (main, good)
                (signal-Stopping fuel reads drains (construct k t options w.kernel).0
                  (with_kernel k w (construct k t options w.kernel).1) _ refl)
          | inr bad ↦
              let (s', e) =
                destroyed (construct k t options w.kernel).0 (construct k t options w.kernel).1 in
              rw (main, bad, e) tt
        ]
