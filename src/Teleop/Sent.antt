-- ===== src/Teleop/Sent.antt =====
-- What TeleopKeyboard::spin (src/teleop_keyboard/teleop_keyboard.cpp) sends.
use rob320_p.Base.{
  ℕ, ◌+◌, ◌≡◌, ◌<◌, ◌^◌, List, [], ◌∷◌, ◌++◌, Bool, true, false, none, some, length, concat, refl,
  sym, ap, ◌∙◌, arith, append-nil, append_assoc, to_bytes, length-to_bytes, replicate, inl, inr,
  Option, ltb, ltb_zero, Option-cases, if◌then◌else◌,
}
use mathlib.Core.Path.{subst}
use rob320_p.Base.Int.{to_i32-lt}
use rob320_p.Memory.{Out, to_u32}
use rob320_p.Memory.Copy.{write_filled}
use rob320_p.Serialization.Serialize.{serialize_number}
use rob320_p.Serialization.Layout.{serialize_number-wire}
use rob320_p.Messages.Twist2DStamped
use rob320_p.Messages.Twist2DStamped.{Twist2DStamped, stamped-IsCodec, wire}
use rob320_p.Util.Time
use rob320_p.Util.Time.{Time}
use rob320_p.Io.{Notif, notif_ready, IsQuiet}
use rob320_p.Io.Stream.{notif_ready-IsQuiet}
use rob320_p.Driver.Frames.{frame}
use rob320_p.Teleop.Key.{Doubles, Speeds, Velocity, to_upper, velocity, command}
use rob320_p.Teleop.Output.{Wrote, sent, write_exact, IsWilling, write_exact-Sent}
use rob320_p.Teleop.Loop.{
  Event, idle, key, closed, interrupted, would_block, broken, Trip, again, unless_ready, send_bytes,
  send_buffers, send, press, trip, Spin, returned, waiting, spin,
}

-- A message goes out as one frame.
abbrev SentOne : Twist2DStamped → ℕ → List ℕ → Notif → Trip → Type 0
SentOne msg seq out notif r =
    (ws : List Wrote) × (r ≡ again seq (out ++ frame (wire msg)) ws notif) × IsWilling ws

-- `if (n > 0 && !write_exact(...))` makes a call that would return at once.
written_payload :
    (payload out : List ℕ) (ws : List Wrote)
    → (if ltb 0 (length payload) then write_exact payload out ws else sent out ws)
      ≡ write_exact payload out ws
unfolding write_exact
written_payload [] out ws = refl
written_payload (b ∷ bs) out ws = rw (ltb_zero (length bs))

send_bytes-Sent :
    (size_buf payload : List ℕ) (seq : ℕ) (out : List ℕ) (ws : List Wrote) (notif : Notif)
    → IsWilling ws
    → (ws' : List Wrote) × (send_bytes size_buf payload seq out ws notif
        ≡ again seq (out ++ (size_buf ++ payload)) ws' notif)
      × IsWilling ws'
unfolding send_bytes
send_bytes-Sent size_buf payload seq out ws notif h =
    let (ws₁, e₁, h₁) = write_exact-Sent size_buf out ws h in
    let (ws₂, e₂, h₂) = write_exact-Sent payload (out ++ size_buf) ws₁ h₁ in
    (
      ws₂,
      rw (e₁, send_bytes, written_payload payload (out ++ size_buf) ws₁, e₂)
          (ap (λ l. again seq l ws₂ notif) (append_assoc out size_buf payload)),
      h₂,
    )

abbrev full : List ℕ → Out
full bs = record { dst = bs; offset = length bs }

payload_filled :
    (msg : Twist2DStamped)
    → Twist2DStamped.Fits msg
    → Twist2DStamped.serialize msg (record { dst = replicate (length (wire msg)) 0; offset = 0 })
      ≡ some (full (wire msg))
payload_filled msg f =
    stamped-IsCodec.serialize-wire msg
      (record { dst = replicate (length (wire msg)) 0; offset = 0 }) f
    ∙ write_filled (wire msg) (length (wire msg)) refl

size_filled :
    (n : ℕ)
    → serialize_number 4 n (record { dst = replicate 4 0; offset = 0 }) ≡ some (full (to_bytes 4 n))
size_filled n =
    serialize_number-wire 4 n (record { dst = replicate 4 0; offset = 0 })
    ∙ write_filled (to_bytes 4 n) 4 (sym (length-to_bytes 4 n))
    ∙ ap (λ k. some (record { dst = to_bytes 4 n; offset = k })) (sym (length-to_bytes 4 n))

send-Sent :
    (msg : Twist2DStamped) (seq : ℕ) (out : List ℕ) (ws : List Wrote) (notif : Notif)
    → Twist2DStamped.Fits msg
    → IsWilling ws
    → SentOne msg seq out notif (send msg seq out ws notif)
unfolding send send_buffers
send-Sent msg seq out ws notif f h =
    subst (SentOne msg seq out notif)
      (sym (
        ap (λ n. send_buffers (payload_buf n) (size_buf n) seq out ws notif) same_size
        ∙ ap (λ p. send_buffers p (size_buf (length (wire msg))) seq out ws notif)
            (payload_filled msg f)
        ∙ ap (λ p. send_buffers (some (full (wire msg))) p seq out ws notif)
            (size_filled (length (wire msg)))))
      (send_bytes-Sent (to_bytes 4 (length (wire msg))) (wire msg) seq out ws notif h)
  where
    payload_buf : ℕ → Option Out
    payload_buf n = Twist2DStamped.serialize msg (record { dst = replicate n 0; offset = 0 })

    size_buf : ℕ → Option Out
    size_buf n = serialize_number 4 n (record { dst = replicate 4 0; offset = 0 })

    same_size : to_u32 (Twist2DStamped.size msg) ≡ length (wire msg)
    same_size = omega (arith, stamped-IsCodec.size-wire msg f, stamped-IsCodec.short_wire msg f)

module _ (fp : Doubles) (speeds : Speeds fp) where
  -- The commands that the keys stand for, numbered from `seq` on, up to the end of the input.
  unfoldable pub keyed : List Event → ℕ → List Twist2DStamped
  unfolding to_upper velocity command
  keyed [] seq = []
  keyed (idle ∷ events) seq = keyed events seq
  keyed (key ch now ∷ events) seq = elim (velocity fp speeds (to_upper ch)) [
    | none ↦ keyed events seq
    | some v ↦ command fp seq now v ∷ keyed events (to_u32 (seq + 1))
  ]
  keyed (closed ∷ events) seq = []
  keyed (interrupted ∷ events) seq = keyed events seq
  keyed (would_block ∷ events) seq = keyed events seq
  keyed (broken ∷ events) seq = []

  pub command-Fits :
      (seq : ℕ) (now : Time) (v : Velocity fp)
      → seq < 2 ^ 32
      → Twist2DStamped.Fits (command fp seq now v)
  unfolding command Time.to_msg
  command-Fits seq now v h = (
    (h, (to_i32-lt _, to_i32-lt _), omega arith),
    (fp.to_float-lt v.vx, fp.to_float-lt v.vy, fp.to_float-lt v.wz),
  )

abbrev pub ends : List Event → Bool
ends [] = false
ends (idle ∷ events) = ends events
ends (key ch now ∷ events) = ends events
ends (closed ∷ events) = true
ends (interrupted ∷ events) = ends events
ends (would_block ∷ events) = ends events
ends (broken ∷ events) = true

-- How the loop stands with its input used up or ended.
abbrev pub status : Bool → List ℕ → Spin
status true out = returned out
status false out = waiting out

abbrev pub frames : List Twist2DStamped → List ℕ
frames = concat (λ m. frame (wire m))

quiet_goes :
    (notif : Notif) (out : List ℕ) (rest : Notif → Trip)
    → IsQuiet notif
    → unless_ready notif out rest ≡ rest (notif_ready notif).1
unfolding unless_ready
quiet_goes notif out rest q = rw (notif_ready-IsQuiet notif q).0

module _ (fp : Doubles) (speeds : Speeds fp) where
  abbrev SpinsTo : List Event → ℕ → List ℕ → List Wrote → Notif → Type 0
  SpinsTo events seq out ws notif =
      spin fp speeds events seq out ws notif
      ≡ status (ends events) (out ++ frames (keyed fp speeds events seq))

  press-Sent :
      (ch : ℕ) (now : Time) (seq : ℕ) (out : List ℕ) (events : List Event) (ws : List Wrote)
      (notif : Notif)
      → ((seq : ℕ) (out : List ℕ) (ws : List Wrote) (notif : Notif)
          → seq < 2 ^ 32
          → IsWilling ws
          → IsQuiet notif
          → SpinsTo events seq out ws notif)
      → seq < 2 ^ 32
      → IsWilling ws
      → IsQuiet notif
      → SpinsTo (key ch now ∷ events) seq out ws notif
  unfolding keyed spin trip press
  press-Sent ch now seq out events ws notif goes l h q =
      elim (Option-cases (velocity fp speeds (to_upper ch))) [
        | inl e ↦
            rw (spin, trip, press, e, quiet_goes notif out (again seq out ws) q, keyed)
              (goes seq out ws _ l h (notif_ready-IsQuiet notif q).1)
        | inr (v, e) ↦
            let (ws', e', h') =
              send-Sent (command fp seq now v) (to_u32 (seq + 1)) out ws (notif_ready notif).1
                (command-Fits fp speeds seq now v l) h in
            rw
              (
                spin,
                trip,
                press,
                e,
                quiet_goes notif out (send (command fp seq now v) (to_u32 (seq + 1)) out ws) q,
                e',
                keyed,
              )
              (goes (to_u32 (seq + 1)) _ ws' _ (omega arith) h' (notif_ready-IsQuiet notif q).1
                ∙ ap (status (ends events))
                    (append_assoc out (frame (wire (command fp seq now v))) _))
      ]

  -- The keyboard from a sequence number below 2 ^ 32. If the notification is quiet and every write
  -- takes a byte at least or is interrupted, spin does not fault; it returns if its input ends and
  -- waits otherwise, and it has sent, after what was sent before, just the frames of the commands of
  -- the keys, in order.
  pub spin-keyed :
      (events : List Event) (seq : ℕ) (out : List ℕ) (ws : List Wrote) (notif : Notif)
      → seq < 2 ^ 32
      → IsWilling ws
      → IsQuiet notif
      → spin fp speeds events seq out ws notif
        ≡ status (ends events) (out ++ frames (keyed fp speeds events seq))
  unfolding keyed spin trip
  spin-keyed [] seq out ws notif l h q = ap waiting (sym (append-nil out))
  spin-keyed (idle ∷ events) seq out ws notif l h q =
      rw (spin, trip, quiet_goes notif out (again seq out ws) q)
        (spin-keyed events seq out ws _ l h (notif_ready-IsQuiet notif q).1)
  spin-keyed (key ch now ∷ events) seq out ws notif l h q =
      press-Sent ch now seq out events ws notif (spin-keyed events) l h q
  spin-keyed (closed ∷ events) seq out ws notif l h q = ap returned (sym (append-nil out))
  spin-keyed (interrupted ∷ events) seq out ws notif l h q =
      spin-keyed events seq out ws notif l h q
  spin-keyed (would_block ∷ events) seq out ws notif l h q =
      spin-keyed events seq out ws notif l h q
  spin-keyed (broken ∷ events) seq out ws notif l h q = ap returned (sym (append-nil out))
