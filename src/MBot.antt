-- ===== src/MBot.antt =====
-- The packets to the robot's control board, in include/mbot/messages.hpp. The message is `msg_len` bytes and
-- the packet `rospkt_len`, and neither sum of bytes reaches the end of an int.
pub mod Packet
pub mod Drive
pub mod Receive
pub mod Timesync
pub mod Line
pub mod Life
use rob320_p.Base.{
  ℕ, ◌+◌, ◌-◌, ◌/◌, ◌%◌, List, [], ◌∷◌, Option, none, some, length, ◌>>=◌, ◌==◌, if◌then◌else◌,
}
use mathlib.Core.Option
use rob320_p.Memory.{Out, write}

-- The loop of `checksum`.
unfoldable pub sum_bytes : List ℕ → ℕ → ℕ
sum_bytes [] sum = sum
sum_bytes (a ∷ addends) sum = sum_bytes addends (sum + a)

unfoldable pub checksum : List ℕ → ℕ
unfolding sum_bytes
checksum addends = 255 - sum_bytes addends 0 % 256

-- The bytes stored in `rospkt` from index `i` on.
unfoldable pub put : ℕ → List ℕ → List ℕ → Option (List ℕ)
unfolding write
put i bs rospkt = Option.map (λ (o : Out). o.dst) (write bs (record { dst = rospkt; offset = i }))

unfoldable pub fill : List ℕ → ℕ → List ℕ → Option (List ℕ)
unfolding put checksum
fill msg topic rospkt =
    let len0 = length msg % 256 in
    let len1 = length msg / 256 % 256 in
    let topic0 = topic % 256 in
    let topic1 = topic / 256 % 256 in
    put 0 (255 ∷ []) rospkt
    >>= put 1 (254 ∷ [])
    >>= put 2 (len0 ∷ [])
    >>= put 3 (len1 ∷ [])
    >>= put 4 (checksum (len0 ∷ len1 ∷ []) ∷ [])
    >>= put 5 (topic0 ∷ [])
    >>= put 6 (topic1 ∷ [])
    >>= put 7 msg
    >>= put (length rospkt - 1) (checksum (topic0 ∷ topic1 ∷ msg) ∷ [])

-- -1, or 0 with the packet, or an access outside of it.
pub data Encoded : Type 0 where
  refused : Encoded
  encoded : List ℕ → Encoded
  fault : Encoded

unfoldable pub filled : Option (List ℕ) → Encoded
filled none = fault
filled (some rospkt) = encoded rospkt

unfoldable pub encode_msg : List ℕ → ℕ → List ℕ → Encoded
unfolding fill filled
encode_msg msg topic rospkt =
    if length msg + 8 == length rospkt then filled (fill msg topic rospkt) else refused
