-- ===== src/MBot/Life.antt =====
-- The constructor and the destructor of MBot (src/mbot/mbot.cpp). The calls on the terminal are a parameter.
pub mod Descriptors
use Prim.Native.Nat.{bit_and, bit_or}
use rob320_p.Base.{ℕ, ◌+◌, ◌-◌, ◌^◌, List, [], ◌∷◌, Bool, true, false, Option, none, some}
use rob320_p.Base.Int.{ℤ, pos, negsuc}
use rob320_p.Ipc.Kernel.{Kernel}
use rob320_p.Ipc.File
use rob320_p.Ipc.File.{File, open_file}
use rob320_p.Ipc.Ownership.{update}
use rob320_p.MBot.Timesync.{Tick, timesync}

-- /dev/mbot_lcm
abbrev pub port_name : List ℕ
port_name =
    b'/' ∷ b'd' ∷ b'e' ∷ b'v' ∷ b'/' ∷ b'm' ∷ b'b' ∷ b'o' ∷ b't' ∷ 95 ∷ b'l' ∷ b'c' ∷ b'm' ∷ []

-- O_RDWR | O_NOCTTY | O_NDELAY of Linux
abbrev pub port_flags : ℕ
port_flags = 2306

-- struct termios: the flags that the constructor changes, the control characters by number, and the rest.
pub record Termios : Type 0 where
  pub c_cflag : ℕ
  pub c_oflag : ℕ
  pub c_lflag : ℕ
  pub c_cc : ℕ → ℕ
  pub others : List ℕ

-- tcgetattr says if it succeeds, and gives what the memory then has.
pub record Terminal (S : Type 0) : Type 0 where
  pub tcgetattr : ℕ → Termios → S → Bool × Termios × S
  pub tcsetattr : ℕ → ℕ → Termios → S → S
  pub tcflush : ℕ → ℕ → S → S
  pub cfsetspeed : ℕ → Termios → Termios
  pub cfmakeraw : Termios → Termios

-- `flags &= ~mask` and `flags |= mask` of an unsigned of 32 bits
abbrev pub cleared : ℕ → ℕ → ℕ
cleared mask flags = bit_and flags (2 ^ 32 - 1 - mask)

abbrev pub added : ℕ → ℕ → ℕ
added mask flags = bit_or flags mask

-- From cfsetspeed to cfmakeraw, with the constants of Linux.
unfoldable pub configured : {S : Type 0} → Terminal S → Termios → Termios
configured t options =
    let options = t.cfsetspeed 4098 options in
    t.cfmakeraw (record options {
      c_cflag = added (48 + 128 + 2048) (cleared (48 + 256 + 64 + 2 ^ 31) options.c_cflag);
      c_oflag = cleared 1 options.c_oflag;
      c_lflag = cleared (2 + 1 + 8 + 32768) options.c_lflag;
      c_cc = update 6 0 (update 5 1 options.c_cc);
    })

-- `thread` is joinable.
pub record MBot : Type 0 where
  pub file : File
  pub thread : Bool
  pub stop_timesync_flag : Bool

module _ (k : Kernel) where
  -- The file of the robot.
  unfoldable pub open_port : k.State → File × k.State
  unfolding open_file
  open_port s = open_file k port_name port_flags 0 s

  module _ (t : Terminal k.State) where
    -- From the first tcgetattr to the last, which says if it succeeded. `old` is what the memory has in `options`.
    unfoldable pub set_up : ℕ → Termios → k.State → Bool × k.State
    unfolding configured
    set_up fd old s =
        let (ok, options, s) = t.tcgetattr fd old s in
        let options = configured t options in
        let (ok, options, s) =
          t.tcgetattr fd options (t.tcsetattr fd 0 options (t.tcflush fd 0 s)) in
        (ok, s)

    -- The body of the constructor behind the opening.
    unfoldable pub start : File → Termios → k.State → MBot × k.State
    unfolding set_up
    start f old s = elim f.fd [
      | negsuc n ↦ (record { file = f; thread = false; stop_timesync_flag = false }, s)
      | pos fd ↦ elim (set_up fd old s).0 [
        | false ↦ (
          record { file = f; thread = false; stop_timesync_flag = false },
          k.close fd (set_up fd old s).1,
        )
        | true ↦
            (record { file = f; thread = true; stop_timesync_flag = false }, (set_up fd old s).1)
      ]
    ]

    -- MBot()
    unfoldable pub construct : Termios → k.State → MBot × k.State
    unfolding open_port start
    construct old s = start (open_port s).0 old (open_port s).1

  -- The flag is set and the thread joined: what the loop does up to its end is its rounds with `ticks`, of which
  -- there are none if there is no thread. Then the file is destroyed.
  unfoldable pub destroy : MBot → List Tick → k.State → Option k.State
  unfolding timesync File.destroy
  destroy m ticks s = elim m.thread [
    | false ↦ some (File.destroy k m.file s)
    | true ↦ elim (timesync k m.file ticks s) [
      | none ↦ none
      | some s' ↦ some (File.destroy k m.file s')
    ]
  ]
