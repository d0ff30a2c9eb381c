-- ===== src/Util.antt =====
-- src/rix/util and include/rix/util.
pub mod Chrono
pub mod Time
pub mod Duration
pub mod Stamps
pub mod Sums
pub mod Rounding
pub mod ArgumentValues
pub mod ArgumentParser
pub mod Doubles
pub mod Rate
pub mod Log
pub mod TimeText
