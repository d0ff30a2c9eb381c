-- ===== src/Teleop/Loop.antt =====
-- The loop of TeleopKeyboard::spin (src/teleop_keyboard/teleop_keyboard.cpp).
use rob320_p.Base.{ℕ, ◌+◌, List, [], ◌∷◌, Option, none, some, ltb, if◌then◌else◌, length, replicate}
use rob320_p.Memory.{Out, to_u32}
use rob320_p.Serialization.Serialize.{serialize_number}
use rob320_p.Messages.Twist2DStamped
use rob320_p.Messages.Twist2DStamped.{Twist2DStamped}
use rob320_p.Util.Time.{Time}
use rob320_p.Io.{Notif, notif_ready}
use rob320_p.Teleop.Key.{Doubles, Speeds, to_upper, velocity, command}
use rob320_p.Teleop.Output.{Wrote, sent, refused, write_exact}

-- What a trip of the loop meets at its input: no byte within the wait, a byte (and the time should it be
-- asked for), the end of the file, or -1 with errno EINTR, with EAGAIN or EWOULDBLOCK, or with any other.
pub data Event : Type 0 where
  idle : Event
  key : ℕ → Time → Event
  closed : Event
  interrupted would_block broken : Event

-- `return`, or the next trip with the sequence number, the output and what is left of the environment.
pub data Trip : Type 0 where
  leave : List ℕ → Trip
  again : ℕ → List ℕ → List Wrote → Notif → Trip
  crash : Trip

-- `if (notif_ready()) return;` and on with the rest.
unfoldable pub unless_ready : Notif → List ℕ → (Notif → Trip) → Trip
unless_ready notif out rest =
    if (notif_ready notif).0 then leave out else rest (notif_ready notif).1

-- `write_exact` of the size, and of the payload if there is any.
unfoldable pub send_bytes : List ℕ → List ℕ → ℕ → List ℕ → List Wrote → Notif → Trip
send_bytes size_buf payload seq out ws notif = elim (write_exact size_buf out ws) [
  | refused out ws ↦ leave out
  | sent out ws ↦
      elim (if ltb 0 (length payload) then write_exact payload out ws else sent out ws) [
        | refused out ws ↦ leave out
        | sent out ws ↦ again seq out ws notif
      ]
]

-- Both buffers written, or an access out of one of them.
unfoldable pub send_buffers : Option Out → Option Out → ℕ → List ℕ → List Wrote → Notif → Trip
unfolding send_bytes
send_buffers none size_buf seq out ws notif = crash
send_buffers (some payload) none seq out ws notif = crash
send_buffers (some payload) (some size_buf) seq out ws notif =
    send_bytes size_buf.dst payload.dst seq out ws notif

-- From `msg.size()` on. The sequence number has been used up by then.
unfoldable pub send : Twist2DStamped → ℕ → List ℕ → List Wrote → Notif → Trip
unfolding send_buffers
send msg seq out ws notif =
    let n = to_u32 (Twist2DStamped.size msg) in
    send_buffers (Twist2DStamped.serialize msg (record { dst = replicate n 0; offset = 0 }))
      (serialize_number 4 n (record { dst = replicate 4 0; offset = 0 })) seq out ws notif

-- How `spin` stands: returned, waiting for its input, or out of its buffers; with its output.
pub data Spin : Type 0 where
  returned : List ℕ → Spin
  waiting : List ℕ → Spin
  faulted : Spin

module _ (fp : Doubles) (speeds : Speeds fp) where
  unfoldable pub press : ℕ → Time → ℕ → List ℕ → List Wrote → Notif → Trip
  unfolding unless_ready send to_upper velocity command
  press ch now seq out ws notif = elim (velocity fp speeds (to_upper ch)) [
    | none ↦ unless_ready notif out λ notif. again seq out ws notif
    | some v ↦
        unless_ready notif out λ notif. send (command fp seq now v) (to_u32 (seq + 1)) out ws notif
  ]

  unfoldable pub trip : Event → ℕ → List ℕ → List Wrote → Notif → Trip
  unfolding unless_ready press
  trip idle seq out ws notif = unless_ready notif out λ notif. again seq out ws notif
  trip (key ch now) seq out ws notif = press ch now seq out ws notif
  trip closed seq out ws notif = leave out
  trip interrupted seq out ws notif = again seq out ws notif
  trip would_block seq out ws notif = again seq out ws notif
  trip broken seq out ws notif = leave out

  unfoldable pub spin : List Event → ℕ → List ℕ → List Wrote → Notif → Spin
  unfolding trip
  spin [] seq out ws notif = waiting out
  spin (e ∷ events) seq out ws notif = elim (trip e seq out ws notif) [
    | leave out ↦ returned out
    | again seq out ws notif ↦ spin events seq out ws notif
    | crash ↦ faulted
  ]
