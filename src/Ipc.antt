-- ===== src/Ipc.antt =====
-- The classes of src/rix/ipc over the kernel's system calls.
pub mod Kernel
pub mod File
pub mod Ownership
pub mod Objects
pub mod Flags
pub mod Pipe
pub mod Fifo
pub mod Signal
