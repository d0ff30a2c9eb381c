-- ===== src/Tests/Live.antt =====
-- MBotDriver on objects, and the life of an MBot.
use rob320_p.Base.{
  ℕ, zero, suc, ◌-◌, ◌^◌, ◌≡◌, ◌≤◌, List, [], ◌∷◌, Bool, true, false, some, All, IsByte, length,
  replicate, min, ltb, if◌then◌else◌, refl, arith, ap, sym,
}
use mathlib.Core.Path.{subst}
use rob320_p.Base.Int.{pos}
use rob320_p.Io.{Answer, bytes, would_block}
use rob320_p.Io.Interfaces.{Channel, Notification, MBotBase}
use rob320_p.Driver.{stop}
use rob320_p.Driver.Live.{spin, rounds, notif_ready}
use rob320_p.Driver.Live.Mirrors.{IsChannel}
use rob320_p.Driver.Live.Mirrors.Safe.{Refines, spin-Refines}
use rob320_p.Driver.Live.Prompt.{IsRaised, EndsSoon, rounds-EndsSoon}
use rob320_p.Ipc.Signal.{World}
use rob320_p.Ipc.Pipe.{no_pipe}
use rob320_p.MBot.Life.{Termios, Terminal, construct, destroy, open_port, set_up}
use rob320_p.MBot.Life.Descriptors.{IsCalm, Constructed, SameOpen, destroy-construct, destroy_again}
use rob320_p.MBot.Timesync.{Tick}
use rob320_p.Programs.MBotDriver.Live.{main}
use rob320_p.Programs.MBotDriver.Live.Stops.{ReadsBytes, Stopping, main-Stopping}
use rob320_p.Ipc.File.{ok}
use rob320_p.Tests.ToyKernel.{Machine, toy_kernel, toy_kernel-IsPosix, contains, fresh, total}

-- So many zeros are left to read, and so many commands were given; once asked, the notification is ready.
record Desk : Type 0 where
  left : ℕ
  given : ℕ
  asked : Bool

abbrev zeros : Channel Desk
zeros = record {
  read = λ n s. (bytes (replicate (min n s.left) 0), record s { left = s.left - min n s.left });
  write = λ bs s. (pos (length bs), s);
  wait_for_writable = λ d s. (true, s);
  wait_for_readable = λ d s. (true, s);
  set_nonblocking = λ b s. s;
  is_nonblocking = λ s. true;
}

abbrev once_asked : Notification Desk
once_asked = record {
  raise = λ s. (true, s);
  wait = λ d s. some (s.asked, record s { asked = true });
}

abbrev counting : MBotBase Desk
counting = record { is_ok = λ s. true; drive = λ cmd s. record s { given = suc s.given } }

pub bytes_same : {a b : List ℕ} → bytes a ≡ bytes b → a ≡ b
bytes_same h = cc

length-zeros : (n : ℕ) → length {A = ℕ} (replicate n 0) ≡ n
length-zeros zero = refl
length-zeros (suc n) = ap suc (length-zeros n)

zeros-AreBytes : (n : ℕ) → All IsByte (replicate n 0)
zeros-AreBytes zero = tt
zeros-AreBytes (suc n) = (omega arith, zeros-AreBytes n)

abbrev zeros-IsChannel : IsChannel zeros
zeros-IsChannel = record {
  short = λ n s bs e.
      subst (λ b. length b ≤ suc n) (bytes_same e)
        (omega (arith, length-zeros (min (suc n) s.left)));
  are_bytes = λ n s bs e. subst (All IsByte) (bytes_same e) (zeros-AreBytes (min (suc n) s.left));
}

abbrev first_desk : Desk
first_desk = record { left = 9; given = 0; asked = false }

spin-Refines_example :
    Refines zeros
      (some once_asked)
      counting
      3
      []
      first_desk
      (spin Desk zeros (some once_asked) counting 3 8 first_desk)
spin-Refines_example = spin-Refines zeros (some once_asked) counting zeros-IsChannel 3 8 first_desk

abbrev WasAsked : Desk → Type 0
WasAsked s = s.asked ≡ true

asked-IsRaised : IsRaised zeros (some once_asked) counting WasAsked
unfolding notif_ready
asked-IsRaised = record {
  ready = λ s h. (record s { asked = true }, ap (λ b. some (b, record s { asked = true })) h);
  read_raised = λ n s h. h;
  goes_on = λ n s h e. absurd (ground (arith, e));
  drive_raised = λ cmd s h. h;
}

rounds-EndsSoon_example :
    EndsSoon zeros
      (some once_asked)
      counting
      zeros-IsChannel
      WasAsked
      asked-IsRaised
      (stop ∷ [])
      (rounds Desk zeros (some once_asked) counting 2 (2 ^ 32) (stop ∷ []) first_desk)
unfolding notif_ready
rounds-EndsSoon_example =
    rounds-EndsSoon zeros (some once_asked) counting zeros-IsChannel WasAsked asked-IsRaised 0
      (2 ^ 32) (stop ∷ []) first_desk (record first_desk { asked = true }) (omega arith) refl refl

one_byte :
    (b : Bool) (s s' : Machine) (bs : List ℕ)
    → (if◌then◌else◌ {A = Answer × Machine} b (bytes (0 ∷ []), s) (would_block, s')).0 ≡ bytes bs
    → bs ≡ 0 ∷ []
one_byte true s s' bs e = bytes_same (sym e)
one_byte false s s' bs e = absurd (ground (arith, e))

read_one :
    (n : ℕ) (s : toy_kernel.State) (bs : List ℕ)
    → (toy_kernel.read 0 (suc n) s).0 ≡ bytes bs
    → bs ≡ 0 ∷ []
unfolding toy_kernel
read_one n s bs e = one_byte (ltb 0 s.waiting) _ s bs e

abbrev toy_kernel-ReadsBytes : ReadsBytes toy_kernel
unfolding toy_kernel
toy_kernel-ReadsBytes = record {
  read_short = λ n s bs e. subst (λ b. length b ≤ suc n) (sym (read_one n s bs e)) (omega arith);
  read_bytes = λ n s bs e. subst (All IsByte) (sym (read_one n s bs e)) (omega arith, tt);
}

-- A terminal whose tcgetattr gives `good`.
abbrev terminal : Bool → Terminal toy_kernel.State
terminal good = record {
  tcgetattr = λ fd options s. (good, options, s);
  tcsetattr = λ fd actions options s. s;
  tcflush = λ fd queue s. s;
  cfsetspeed = λ speed options. options;
  cfmakeraw = λ options. options;
}

abbrev zero_options : Termios
zero_options = record { c_cflag = 0; c_oflag = 0; c_lflag = 0; c_cc = λ n. 0; others = [] }

abbrev machine : toy_kernel.State
unfolding toy_kernel
machine = record { opened = 0 ∷ []; flags = λ n. 2; waiting = 9 }

abbrev world : World toy_kernel
world = record {
  notifier = λ n. record { reads = no_pipe; writes = no_pipe; is_init = false };
  kernel = machine;
}

abbrev tick : Tick
tick = record { tv_sec = pos 3; tv_nsec = 4_000; old = replicate 16 7 }

main-Stopping_example :
    Stopping toy_kernel toy_kernel-ReadsBytes
      (terminal true)
      zero_options
      (replicate 28 0)
      refl
      (tick ∷ [])
      (refl, tt)
      (construct toy_kernel (terminal true) zero_options world.kernel).0
      (main toy_kernel (terminal true) zero_options (replicate 28 0) refl (tick ∷ []) 3 8 70 world)
main-Stopping_example =
    main-Stopping toy_kernel toy_kernel-ReadsBytes (terminal true) zero_options (replicate 28 0)
      refl (tick ∷ []) (refl, tt) 3 8 70 world

terminal-IsCalm : IsCalm toy_kernel toy_kernel-IsPosix (terminal true)
unfolding toy_kernel toy_kernel-IsPosix
terminal-IsCalm = record {
  tcgetattr_open = λ fd n options s. refl;
  tcsetattr_open = λ fd actions n options s. refl;
  tcflush_open = λ fd queue n s. refl;
  write_open = λ fd n bs s. refl;
}

destroy-construct_example :
    Constructed toy_kernel toy_kernel-IsPosix
      (terminal true)
      terminal-IsCalm
      machine
      (construct toy_kernel (terminal true) zero_options machine)
    × ((s'' : toy_kernel.State) × (destroy toy_kernel
            (construct toy_kernel (terminal true) zero_options machine).0
            (tick ∷ [])
            (construct toy_kernel (terminal true) zero_options machine).1
          ≡ some s'')
        × SameOpen toy_kernel toy_kernel-IsPosix machine s'')
unfolding toy_kernel-IsPosix toy_kernel contains
destroy-construct_example =
    destroy-construct toy_kernel toy_kernel-IsPosix (terminal true) terminal-IsCalm zero_options
      machine (tick ∷ []) refl (refl, tt)

-- The descriptor 1 is another's by then.
abbrev later : toy_kernel.State
unfolding toy_kernel
later = record { opened = 0 ∷ 1 ∷ []; flags = λ n. 2; waiting = 0 }

destroy_again_example :
    (ok (construct toy_kernel (terminal false) zero_options machine).0.file ≡ true)
    × (toy_kernel-IsPosix.is_open (construct toy_kernel (terminal false) zero_options machine).1 1
        ≡ false)
    × ((s'' : toy_kernel.State) × (destroy toy_kernel
            (construct toy_kernel (terminal false) zero_options machine).0
            []
            later
          ≡ some s'')
        × (toy_kernel-IsPosix.is_open s'' 1 ≡ false))
unfolding open_port toy_kernel fresh total set_up
destroy_again_example =
    destroy_again toy_kernel toy_kernel-IsPosix (terminal false) zero_options 1 machine later []
      (λ e. absurd (omega (arith, e))) refl refl
