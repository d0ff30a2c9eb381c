-- ===== src/MBot/Receive.antt =====
-- What a receiver reads from the packets of include/mbot/messages.hpp, by the layout that the header gives.
use rob320_p.Base.{
  ℕ, zero, suc, ◌+◌, ◌*◌, ◌/◌, ◌%◌, ◌^◌, ◌≡◌, ◌≤◌, ◌<◌, List, [], ◌∷◌, ◌++◌, true, Option, none,
  some, ◌>>=◌, ◌&&◌, ◌==◌, if◌then◌else◌, length, take, drop, take-append, drop-append, All, refl,
  arith, ap, ◌∙◌, sym, append_assoc,
}
use rob320_p.MBot.{checksum}
use rob320_p.MBot.Packet.{packet}

-- A topic and its message.
pub record Message : Type 0 where
  pub topic : ℕ
  pub msg : List ℕ

abbrev pub packet_of : Message → List ℕ
packet_of m = packet m.msg m.topic

abbrev pub IsMessage : Message → Type 0
IsMessage m = (m.topic < 2 ^ 16) × (length m.msg < 2 ^ 16)

-- The message of the length and the topic, and the bytes behind its checksum.
unfoldable pub read_body : ℕ → ℕ → ℕ → List ℕ → Option (Message × List ℕ)
read_body n t0 t1 bs = elim (drop n bs) [
  | [] ↦ none
  | sum ∷ rest ↦
      if checksum (t0 ∷ t1 ∷ take n bs) == sum
      then some (record { topic = t0 + t1 * 256; msg = take n bs }, rest)
      else none
]

unfoldable pub read_packet : List ℕ → Option (Message × List ℕ)
unfolding read_body
read_packet (sync ∷ version ∷ len0 ∷ len1 ∷ sum ∷ t0 ∷ t1 ∷ bs) =
    if sync == 255 && (version == 254 && checksum (len0 ∷ len1 ∷ []) == sum)
    then read_body (len0 + len1 * 256) t0 t1 bs
    else none
read_packet _ = none

-- All messages of a line, on fuel for each packet.
unfoldable pub receive : ℕ → List ℕ → Option (List Message)
unfolding read_packet
receive fuel [] = some []
receive zero (b ∷ bs) = none
receive (suc fuel) (b ∷ bs) = elim (read_packet (b ∷ bs)) [
  | none ↦ none
  | some (m, rest) ↦ receive fuel rest >>= λ ms. some (m ∷ ms)
]

-- The line of some messages.
unfoldable pub line : List Message → List ℕ
line [] = []
line (m ∷ ms) = packet_of m ++ line ms

pub line-append : (ms ns : List Message) → line (ms ++ ns) ≡ line ms ++ line ns
unfolding line
line-append [] ns = refl
line-append (m ∷ ms) ns =
    ap (◌++◌ (packet_of m)) (line-append ms ns)
    ∙ sym (append_assoc (packet_of m) (line ms) (line ns))

same_self : (n : ℕ) → (n == n) ≡ true
same_self n = ground arith

read_body_lem :
    (n t0 t1 : ℕ) (msg rest : List ℕ)
    → n ≡ length msg
    → read_body n t0 t1 (msg ++ (checksum (t0 ∷ t1 ∷ msg) ∷ rest))
      ≡ some (record { topic = t0 + t1 * 256; msg = msg }, rest)
unfolding read_body
read_body_lem n t0 t1 msg rest e =
    let tail : List ℕ = checksum (t0 ∷ t1 ∷ msg) ∷ rest in
    rw
      (
        read_body,
        drop-append n msg tail e,
        take-append n msg tail e,
        same_self (checksum (t0 ∷ t1 ∷ msg)),
      )
      refl

read_packet-packet_of :
    (m : Message) (rest : List ℕ) → IsMessage m → read_packet (packet_of m ++ rest) ≡ some (m, rest)
unfolding read_packet
read_packet-packet_of m rest (t, l) =
    let sum : List ℕ = checksum ((m.topic % 256) ∷ (m.topic / 256 % 256) ∷ m.msg) ∷ [] in
    rw
      (
        same_self (checksum ((length m.msg % 256) ∷ (length m.msg / 256 % 256) ∷ [])),
        append_assoc m.msg sum rest,
      )
      (read_body_lem _ (m.topic % 256) (m.topic / 256 % 256) m.msg rest (omega (arith, l))
        ∙ ap (λ t. some (record { topic = t; msg = m.msg }, rest)) (omega (arith, t)))

pub receive-line :
    (fuel : ℕ) (ms : List Message)
    → length ms ≤ fuel
    → All IsMessage ms
    → receive fuel (line ms) ≡ some ms
unfolding receive line
receive-line fuel [] l h = refl
receive-line zero (m ∷ ms) l h = absurd (omega (arith, l))
receive-line (suc fuel) (m ∷ ms) l (h, hs) =
    rw (receive, read_packet-packet_of m (line ms) h, receive-line fuel ms (omega (arith, l)) hs)
      refl
