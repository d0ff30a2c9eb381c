-- ===== src/Serialization.antt =====
-- include/rix/msg/serialization.hpp. An arithmetic type `T` is its width `w` = sizeof(T), and a value
-- of it is the bit pattern that memcpy copies; a std::string is the list of its bytes; a std::array
-- and a std::vector are lists.
pub mod Size
pub mod Serialize
pub mod Deserialize
pub mod Layout
pub mod Bounds
pub mod RoundTrip
pub mod Lengths
pub mod Delivery
