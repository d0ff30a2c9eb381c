-- ===== src/Ipc/File.antt =====
-- class File of src/rix/ipc/file.cpp. A method gives the new object and the new state of the kernel.
use rob320_p.Base.{
  ℕ, zero, suc, ◌+◌, ◌-◌, ◌/◌, ◌%◌, ◌^◌, List, Bool, true, false, Option, none, some, ◌==◌, ◌&&◌,
  if◌then◌else◌,
}
use rob320_p.Base.Int.{ℤ, pos, negsuc, ltb_ℤ}
use rob320_p.Io.{Answer}
use rob320_p.Util.Time.{RoundType}
use rob320_p.Util.Duration
use rob320_p.Util.Duration.{Duration}
use rob320_p.Ipc.Kernel.{Kernel, PollEvent, poll_in, poll_out}

pub record File : Type 0 where
  pub fd : ℤ

-- File()
abbrev pub empty : File
empty = record { fd = negsuc 0 }

-- File(int fd)
abbrev pub of_fd : ℤ → File
of_fd fd = record { fd = fd }

unfoldable pub fd : File → ℤ
fd f = f.fd

unfoldable pub ok : File → Bool
ok f = elim f.fd [ pos n ↦ true | negsuc n ↦ false ]

-- O_NONBLOCK of Linux, and a set of flags with it and without it.
abbrev pub o_nonblock : ℕ
o_nonblock = 2048

abbrev pub has_nonblock : ℕ → Bool
has_nonblock flags = (flags / o_nonblock) % 2 == 1

abbrev pub with_nonblock : Bool → ℕ → ℕ
with_nonblock true flags = if has_nonblock flags then flags else flags + o_nonblock
with_nonblock false flags = if has_nonblock flags then flags - o_nonblock else flags

-- The timeout in milliseconds that both waits hand to poll.
unfoldable pub timeout_ms : Duration → ℤ
timeout_ms duration =
    if ltb_ℤ (Duration.to_nanoseconds duration) (pos 0)
    then pos 0
    else let ms = Duration.to_milliseconds duration RoundType.ceil in
      if ltb_ℤ (pos (2 ^ 31 - 1)) ms then pos (2 ^ 31 - 1) else ms

module _ (k : Kernel) where
  open k use {State}

  -- `if (fd_ > 0) { ::close(fd_); fd_ = -1; }`
  unfoldable pub close_fd : ℤ → State → ℤ × State
  close_fd (pos zero) s = (pos zero, s)
  close_fd (pos (suc n)) s = (negsuc 0, k.close (suc n) s)
  close_fd (negsuc n) s = (negsuc n, s)

  -- `if (src.fd_ >= 0) fd_ = ::dup(src.fd_); else fd_ = -1;`
  unfoldable pub dup_fd : ℤ → State → ℤ × State
  dup_fd (pos n) s = k.dup n s
  dup_fd (negsuc n) s = (negsuc 0, s)

  -- File::remove
  unfoldable pub remove : List ℕ → State → Bool × State
  remove pathname s = k.unlink pathname s

  -- File(std::string, int, mode_t)
  unfoldable pub open_file : List ℕ → ℕ → ℕ → State → File × State
  open_file pathname creation_flags mode s =
      let (fd, s') = k.open_path pathname creation_flags mode s in (record { fd = fd }, s')

  -- File(const File &), which leaves fd_ as the memory has it, `old`, where the source has no descriptor.
  unfoldable pub copy : ℤ → File → State → File × State
  copy old src s = elim src.fd [
    | pos n ↦ (record { fd = (k.dup n s).0 }, (k.dup n s).1)
    | negsuc n ↦ (record { fd = old }, s)
  ]

  -- operator=(const File &), of another object
  unfoldable pub copy_assign : File → File → State → File × State
  unfolding close_fd dup_fd
  copy_assign f src s =
      let (fd, s') = close_fd f.fd s in
      let (fd', s'') = dup_fd src.fd s' in (record { fd = fd' }, s'')

  -- File(File &&): the new object, and the source
  unfoldable pub move : File → File × File
  move src = (record { fd = src.fd }, record { fd = negsuc 0 })

  -- operator=(File &&), of another object: this object and the source
  unfoldable pub move_assign : File → File → State → File × File × State
  unfolding close_fd
  move_assign f src s =
      let (fd, s') = close_fd f.fd s in (record { fd = src.fd }, record { fd = fd }, s')

  -- operator=(File &&), of itself
  unfoldable pub move_assign_self : File → State → File × State
  unfolding close_fd
  move_assign_self f s = let (fd, s') = close_fd f.fd s in (record { fd = fd }, s')

  -- ~File()
  unfoldable pub destroy : File → State → State
  unfolding close_fd
  destroy f s = (close_fd f.fd s).1

  -- `none` is -1 without a system call.
  unfoldable pub read : File → ℕ → State → Option Answer × State
  read f size s = elim f.fd [
    | negsuc n ↦ (none, s)
    | pos n ↦ (some (k.read n size s).0, (k.read n size s).1)
  ]

  unfoldable pub write : File → List ℕ → State → ℤ × State
  write f buffer s = elim f.fd [ negsuc n ↦ (negsuc 0, s) | pos n ↦ k.write n buffer s ]

  unfoldable pub set_nonblocking : File → Bool → State → State
  set_nonblocking f status s = elim f.fd [
    | negsuc n ↦ s
    | pos n ↦ elim (k.get_flags n s) [
      | negsuc e ↦ s
      | pos flags ↦ k.set_flags n (with_nonblock status flags) s
    ]
  ]

  unfoldable pub is_nonblocking : File → State → Bool
  is_nonblocking f s = elim f.fd [
    | negsuc n ↦ false
    | pos n ↦ elim (k.get_flags n s) [ negsuc e ↦ false | pos flags ↦ has_nonblock flags ]
  ]

  -- `ret <= 0` is false, and revents has the event.
  unfoldable pub wait_for : PollEvent → File → Duration → State → Bool × State
  unfolding timeout_ms
  wait_for event f duration s = elim f.fd [
    | negsuc n ↦ (false, s)
    | pos n ↦
        let (ret, revents, s') = k.poll n event (timeout_ms duration) s in
        (ltb_ℤ (pos 0) ret && revents, s')
  ]

  unfoldable pub wait_for_writable : File → Duration → State → Bool × State
  unfolding wait_for
  wait_for_writable = wait_for poll_out

  unfoldable pub wait_for_readable : File → Duration → State → Bool × State
  unfolding wait_for
  wait_for_readable = wait_for poll_in
