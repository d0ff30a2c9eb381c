-- ===== src/MBot/Packet.antt =====
-- The layout of the packets of include/mbot/messages.hpp, and their checksums.
use rob320_p.Base.{
  ℕ, ◌+◌, ◌-◌, ◌/◌, ◌%◌, ◌≤◌, ◌≡◌, List, [], ◌∷◌, ◌++◌, some, length, ◌>>=◌, ◌==◌, true, refl,
  arith, length-append, append-nil,
}
use rob320_p.Memory.Copy.{write-append, write-splice, drop_all}
use rob320_p.MBot.{sum_bytes, checksum, put, fill, filled, encoded, encode_msg}

put-append :
    (i j : ℕ) (xs ys dst : List ℕ)
    → j ≡ i + length xs
    → j ≤ length dst
    → (put i xs dst >>= put j ys) ≡ put i (xs ++ ys) dst
unfolding put
put-append i j xs ys dst e h =
    rw (put, write-append xs ys (record { dst = dst; offset = i }), write-splice xs dst i j e h)

pub put-All : (bs dst : List ℕ) → length bs ≡ length dst → put 0 bs dst ≡ some bs
unfolding put
put-All bs dst e = rw (
  put,
  write-splice bs dst 0 (length dst) (omega arith) (omega arith),
  drop_all (length dst) dst (omega arith),
  append-nil bs,
)

-- The sync flags, the length with its checksum, the topic, the message, and the checksum of both.
abbrev pub packet : List ℕ → ℕ → List ℕ
packet msg topic =
    255
    ∷ 254
    ∷ (length msg % 256)
    ∷ (length msg / 256 % 256)
    ∷ checksum ((length msg % 256) ∷ (length msg / 256 % 256) ∷ [])
    ∷ (topic % 256)
    ∷ (topic / 256 % 256)
    ∷ (msg ++ (checksum ((topic % 256) ∷ (topic / 256 % 256) ∷ msg) ∷ []))

fill-packet :
    (msg : List ℕ) (topic : ℕ) (rospkt : List ℕ)
    → length msg + 8 ≡ length rospkt
    → fill msg topic rospkt ≡ some (packet msg topic)
unfolding fill
fill-packet msg topic rospkt h =
    rw
      (
        put-append 0 1 (255 ∷ []) (254 ∷ []) rospkt (omega arith) (omega arith),
        put-append 0 2 (255 ∷ 254 ∷ []) (len0 ∷ []) rospkt (omega arith) (omega arith),
        put-append 0 3 (255 ∷ 254 ∷ len0 ∷ []) (len1 ∷ []) rospkt (omega arith) (omega arith),
        put-append 0 4 (255 ∷ 254 ∷ len0 ∷ len1 ∷ []) (sum0 ∷ []) rospkt (omega arith)
            (omega arith),
        put-append 0 5 (255 ∷ 254 ∷ len0 ∷ len1 ∷ sum0 ∷ []) (topic0 ∷ []) rospkt (omega arith)
            (omega arith),
        put-append 0 6 (255 ∷ 254 ∷ len0 ∷ len1 ∷ sum0 ∷ topic0 ∷ []) (topic1 ∷ []) rospkt
            (omega arith) (omega arith),
        put-append 0 7 header msg rospkt (omega arith) (omega arith),
        put-append 0 (length rospkt - 1) (header ++ msg) (checksum (topic0 ∷ topic1 ∷ msg) ∷ [])
            rospkt (omega arith) (omega arith),
      )
      (put-All (packet msg topic) rospkt
        (omega (arith, length-append msg (checksum (topic0 ∷ topic1 ∷ msg) ∷ []))))
  where
    len0 : ℕ
    len0 = length msg % 256

    len1 : ℕ
    len1 = length msg / 256 % 256

    sum0 : ℕ
    sum0 = checksum (len0 ∷ len1 ∷ [])

    topic0 : ℕ
    topic0 = topic % 256

    topic1 : ℕ
    topic1 = topic / 256 % 256

    header : List ℕ
    header = 255 ∷ 254 ∷ len0 ∷ len1 ∷ sum0 ∷ topic0 ∷ topic1 ∷ []

same_length : (a b : ℕ) → a ≡ b → (a == b) ≡ true
same_length a b e = ground arith

-- If the packet is eight bytes longer than the message, encode_msg succeeds without a store outside of
-- it and fills all of it: the two sync flags, the length of the message in two bytes and their
-- checksum, the topic in two bytes, the message, and the checksum of the topic and the message.
pub encode_msg-packet :
    (msg : List ℕ) (topic : ℕ) (rospkt : List ℕ)
    → length msg + 8 ≡ length rospkt
    → encode_msg msg topic rospkt ≡ encoded (packet msg topic)
unfolding encode_msg filled
encode_msg-packet msg topic rospkt h =
    rw (encode_msg, same_length _ _ h, fill-packet msg topic rospkt h, filled)

sum_bytes-append : (xs : List ℕ) (b sum : ℕ) → sum_bytes (xs ++ (b ∷ [])) sum ≡ sum_bytes xs sum + b
unfolding sum_bytes
sum_bytes-append [] b sum = refl
sum_bytes-append (x ∷ xs) b sum = sum_bytes-append xs b (sum + x)

-- The bytes that a checksum is of and the checksum behind them add up to 255 modulo 256.
checksum_balance : (addends : List ℕ) → sum_bytes (addends ++ (checksum addends ∷ [])) 0 % 256 ≡ 255
unfolding checksum
checksum_balance addends =
    rw (sum_bytes-append addends (checksum addends) 0, checksum) (omega arith)
