-- ===== src/Ipc/Fifo.antt =====
-- class Fifo of src/rix/ipc/fifo.cpp, a File with the path and the mode it was made with.
use rob320_p.Base.{ℕ, List, [], Bool, if◌then◌else◌}
use rob320_p.Base.Int.{ℤ, negsuc}
use rob320_p.Ipc.Kernel.{Kernel, made, exists, refused}
use rob320_p.Ipc.File.{close_fd, dup_fd, with_nonblock}

pub data Mode : Type 0 where
  mode_write mode_read : Mode

pub record Fifo : Type 0 where
  pub fd : ℤ
  pub mode : Mode
  pub pathname : List ℕ

-- Fifo(), which leaves mode_ as the memory has it.
abbrev pub no_fifo : Mode → Fifo
no_fifo old = record { fd = negsuc 0; mode = old; pathname = [] }

-- O_RDWR of Linux, and the permissions 0666.
abbrev pub o_rdwr : ℕ
o_rdwr = 2

abbrev pub permissions : ℕ
permissions = 438

module _ (k : Kernel) where
  open k use {State}

  -- `::open` of the path, for a FIFO that is there.
  unfoldable pub open_fifo : List ℕ → Mode → Bool → State → Fifo × State
  open_fifo pathname mode nonblocking s =
      let flags = if nonblocking then with_nonblock nonblocking o_rdwr else o_rdwr in
      let (fd, s') = k.open_path pathname flags 0 s in
      (record { fd = fd; mode = mode; pathname = pathname }, s')

  -- Fifo(const std::string &, Mode, bool)
  unfoldable pub make : List ℕ → Mode → Bool → State → Fifo × State
  unfolding open_fifo
  make pathname mode nonblocking s = elim (k.mkfifo pathname permissions s).0 [
    | refused ↦ (
      record { fd = negsuc 0; mode = mode; pathname = pathname },
      (k.mkfifo pathname permissions s).1,
    )
    | exists ↦ open_fifo pathname mode nonblocking (k.mkfifo pathname permissions s).1
    | made ↦ open_fifo pathname mode nonblocking (k.mkfifo pathname permissions s).1
  ]

  -- Fifo(const Fifo &)
  unfoldable pub copy : Fifo → State → Fifo × State
  unfolding dup_fd
  copy other s =
      let (fd, s') = dup_fd k other.fd s in
      (record { fd = fd; mode = other.mode; pathname = other.pathname }, s')

  -- operator=(const Fifo &), of another object
  unfoldable pub copy_assign : Fifo → Fifo → State → Fifo × State
  unfolding close_fd dup_fd
  copy_assign f other s =
      let (_, s') = close_fd k f.fd s in
      let (fd, s'') = dup_fd k other.fd s' in
      (record { fd = fd; mode = other.mode; pathname = other.pathname }, s'')

  -- Fifo(Fifo &&): the new object, and the source, whose string the standard leaves unspecified, `old`.
  unfoldable pub move : List ℕ → Fifo → Fifo × Fifo
  move old other = (other, record other { fd = negsuc 0; pathname = old })

  -- operator=(Fifo &&), of another object: this object and the source
  unfoldable pub move_assign : List ℕ → Fifo → Fifo → State → Fifo × Fifo × State
  unfolding close_fd
  move_assign old f other s =
      let (fd, s') = close_fd k f.fd s in (other, record other { fd = fd; pathname = old }, s')
