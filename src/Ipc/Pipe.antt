-- ===== src/Ipc/Pipe.antt =====
-- class Pipe of src/rix/ipc/pipe.cpp, a File with the side of the pipe that it is.
use rob320_p.Base.{Bool, true, false, not, none, some}
use rob320_p.Base.Int.{ℤ, negsuc}
use rob320_p.Ipc.Kernel.{Kernel}
use rob320_p.Ipc.File
use rob320_p.Ipc.File.{File, close_fd, dup_fd}

pub record Pipe : Type 0 where
  pub fd : ℤ
  pub read_end : Bool

-- Pipe()
abbrev pub no_pipe : Pipe
no_pipe = record { fd = negsuc 0; read_end = false }

abbrev pub as_file : Pipe → File
as_file p = record { fd = p.fd }

unfoldable pub is_read_end : Pipe → Bool
is_read_end p = p.read_end

unfoldable pub is_write_end : Pipe → Bool
is_write_end p = not p.read_end

module _ (k : Kernel) where
  open k use {State}

  unfoldable pub create : State → Pipe × Pipe × State
  create s = elim (k.pipe s).0 [
    | none ↦ (no_pipe, no_pipe, (k.pipe s).1)
    | some (reads, writes) ↦ (
      record { fd = reads; read_end = true },
      record { fd = writes; read_end = false },
      (k.pipe s).1,
    )
  ]

  -- Pipe(const Pipe &)
  unfoldable pub copy : Pipe → State → Pipe × State
  unfolding dup_fd
  copy other s =
      let (fd, s') = dup_fd k other.fd s in (record { fd = fd; read_end = other.read_end }, s')

  -- operator=(const Pipe &), of another object
  unfoldable pub copy_assign : Pipe → Pipe → State → Pipe × State
  unfolding close_fd dup_fd
  copy_assign p other s =
      let (_, s') = close_fd k p.fd s in
      let (fd, s'') = dup_fd k other.fd s' in (record { fd = fd; read_end = other.read_end }, s'')

  -- Pipe(Pipe &&): the new object, and the source
  unfoldable pub move : Pipe → Pipe × Pipe
  move other = (
    record { fd = other.fd; read_end = other.read_end },
    record { fd = negsuc 0; read_end = other.read_end },
  )

  -- operator=(Pipe &&), of another object: this object and the source
  unfoldable pub move_assign : Pipe → Pipe → State → Pipe × Pipe × State
  unfolding close_fd
  move_assign p other s =
      let (fd, s') = close_fd k p.fd s in
      (record { fd = other.fd; read_end = other.read_end }, record other { fd = fd }, s')

  -- ~Pipe(), and ~File() after it
  unfoldable pub destroy : Pipe → State → State
  destroy p s = File.destroy k (as_file p) s
