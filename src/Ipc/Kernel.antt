-- ===== src/Ipc/Kernel.antt =====
-- The system calls that src/rix/ipc makes. Their code is not in the repository: the kernel is a parameter, a
-- state with an operation for each call, and IsPosix is what POSIX says of the descriptors.
use rob320_p.Base.{Option, ℕ, ◌≡◌, ◌⊎◌, List, Bool, true, false, ◌==◌, if◌then◌else◌}
use rob320_p.Base.Int.{ℤ, pos, negsuc}
use rob320_p.Io.{Answer}

-- mkfifo: 0, or -1 with errno EEXIST or any other.
pub data Made : Type 0 where
  made exists refused : Made

-- POLLIN and POLLOUT
pub data PollEvent : Type 0 where
  poll_in poll_out : PollEvent

-- What a signal does: run Signal::handler, or SIG_DFL.
pub data Disposition : Type 0 where
  handled by_default : Disposition

-- A call that gives a descriptor returns -1 if it fails. `read` and `write` take a valid descriptor. `poll`
-- on one descriptor gives its result, and whether revents has the event asked for.
pub record Kernel : Type 1 where
  pub State : Type 0
  pub open_path : List ℕ → ℕ → ℕ → State → ℤ × State
  pub close : ℕ → State → State
  pub dup : ℕ → State → ℤ × State
  pub pipe : State → Option (ℤ × ℤ) × State
  pub mkfifo : List ℕ → ℕ → State → Made × State
  pub unlink : List ℕ → State → Bool × State
  pub get_flags : ℕ → State → ℤ
  pub set_flags : ℕ → ℕ → State → State
  pub read : ℕ → ℕ → State → Answer × State
  pub write : ℕ → List ℕ → State → ℤ × State
  pub poll : ℕ → PollEvent → ℤ → State → ℤ × Bool × State
  pub signal : ℕ → Disposition → State → State
  pub raise : ℕ → State → Bool × State
  pub kill : ℕ → ℕ → State → Bool × State

-- `r` is -1 and no descriptor has changed, or the one that was not open and now is.
abbrev pub GivesFresh : (ℕ → Bool) → (ℕ → Bool) → ℤ → Type 0
GivesFresh before after r =
    ((r ≡ negsuc 0) × ((m : ℕ) → after m ≡ before m))
    ⊎ ((n : ℕ) × (r ≡ pos n)
        × (before n ≡ false)
        × ((m : ℕ) → after m ≡ (if n == m then true else before m)))

pub record IsPosix (k : Kernel) : Type 0 where
  pub is_open : k.State → ℕ → Bool
  pub open_path_fresh :
      (path : List ℕ) (flags mode : ℕ) (s : k.State)
      → GivesFresh
          (is_open s)
          (is_open (k.open_path path flags mode s).1)
          (k.open_path path flags mode s).0
  pub dup_fresh :
      (n : ℕ) (s : k.State) → GivesFresh (is_open s) (is_open (k.dup n s).1) (k.dup n s).0
  pub close_lem :
      (n m : ℕ) (s : k.State) → is_open (k.close n s) m ≡ (if n == m then false else is_open s m)
