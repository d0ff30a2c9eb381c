-- ===== src/Tests.antt =====
-- The theorems at concrete inputs.
mod Programs
mod Messages
mod Serialization
mod Util
mod MBot
mod ToyKernel
mod Ipc
mod Arguments
mod Clock
mod Line
mod Keyboard
mod Log
mod Live
mod Interrupt
