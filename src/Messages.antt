-- ===== src/Messages.antt =====
-- The message classes of include/rix/msg/standard and include/rix/msg/geometry, a module for each. A
-- field holds the bit pattern of its C++ type: an int32_t in two's complement, a float as an IEEE 754
-- single. `wire` is the encoding, and the Message instance is proved to implement it.
pub mod UInt32
pub mod Time
pub mod Duration
pub mod Header
pub mod Twist2D
pub mod Twist2DStamped
pub mod Delivery
