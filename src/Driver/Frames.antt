-- ===== src/Driver/Frames.antt =====
-- MBotDriver::spin (src/mbot_driver/mbot_driver.cpp) on a stream of frames: a size in four bytes, and as
-- many bytes of payload.
use rob320_p.Base.{
  ℕ, zero, suc, ◌≡◌, ◌<◌, ◌^◌, List, [], ◌∷◌, ◌++◌, All, IsByte, length, arith, refl, sym, ap, ◌∙◌,
  to_bytes, of_bytes-to_bytes, length-to_bytes, to_bytes-IsByte, inl, inr, true, ◌⊎◌, concat, take,
  drop, take-append, drop-append, append-nil, append_assoc, length-append,
}
use rob320_p.Memory.{Outcome, fault, failed, done}
use rob320_p.Memory.Readers.{Within}
use rob320_p.Messages.Twist2DStamped
use rob320_p.Messages.Twist2DStamped.{Twist2DStamped, stamped_message, stamped-IsCodec}
use rob320_p.Io.{Answer, Notif, notif_ready, IsQuiet}
use rob320_p.Io.Stream.{carried, ends, notif_ready-IsQuiet}
use rob320_p.Driver.{
  stop, send_stop, Round, leave, again, obey, read_payload, read_size, read_message, round,
  returned, spin,
}
use rob320_p.Driver.ReadExact.{read_exact-Cut, read_exact-GaveUp}
use rob320_p.Driver.Steps.{own_size, size_prefix, payload_read}

abbrev pub frame : List ℕ → List ℕ
frame payload = to_bytes 4 (length payload) ++ payload

-- The command that a payload stands for: one, or none if it is no Twist2DStamped.
abbrev commands_of : Outcome Twist2DStamped → List Twist2DStamped
commands_of fault = []
commands_of (failed cmd off) = []
commands_of (done cmd off) = cmd ∷ []

unfoldable pub accept : List ℕ → List Twist2DStamped
accept payload = commands_of (
    Twist2DStamped.deserialize stamped_message.init
      (record { bytes = payload; size = length payload }) 0)

abbrev pub IsPayload : List ℕ → Type 0
IsPayload payload = (length payload < 2 ^ 32) × All IsByte payload

obey_outcome :
    (r : Outcome Twist2DStamped) (drives : List Twist2DStamped) (payload : List ℕ)
    (input : List Answer) (notif : Notif)
    → Twist2DStamped.deserialize stamped_message.init
        (record { bytes = payload; size = length payload })
        0
      ≡ r
    → Within 0 (length payload) r
    → obey drives payload input notif ≡ again (drives ++ accept payload) input notif
unfolding obey accept
obey_outcome fault drives payload input notif e w = absurd w
obey_outcome (failed c o) drives payload input notif e w = rw (e, obey, accept, append-nil)
obey_outcome (done c o) drives payload input notif e w = rw (e, obey, accept)

obey_payload :
    (drives : List Twist2DStamped) (payload : List ℕ) (input : List Answer) (notif : Notif)
    → IsPayload payload
    → obey drives payload input notif ≡ again (drives ++ accept payload) input notif
obey_payload drives payload input notif h = obey_outcome _ drives payload input notif refl (
    (stamped-IsCodec.deserialize-IsBounded stamped_message.init).within
      (record { bytes = payload; size = length payload }) 0
      (own_size payload (length payload) h.1 refl h.0) (omega arith))

-- A round past the check of the notification, on a stream that begins with a size.
abbrev Sized : List Twist2DStamped → ℕ → List ℕ → List Answer → Notif → Type 0
Sized drives n more input notif =
    (input' : List Answer) × (notif' : Notif) × (read_message drives input notif
      ≡ read_payload drives n input' notif')
    × (carried input' ≡ more)
    × (ends input' ≡ ends input)
    × IsQuiet notif'

read_message-Sized :
    (drives : List Twist2DStamped) (n : ℕ) (more : List ℕ) (input : List Answer) (notif : Notif)
    → n < 2 ^ 32
    → IsQuiet notif
    → carried input ≡ to_bytes 4 n ++ more
    → Sized drives n more input notif
unfolding read_message read_size
read_message-Sized drives n more input notif l q c =
    let prefix = length-to_bytes 4 n in
    let (input', notif', r, c', e, q') =
      read_exact-Cut 4 [] input notif q
        (omega (arith, ap length c, length-append (to_bytes 4 n) more, prefix)) in
    let front : take 4 (carried input) ≡ to_bytes 4 n =
      ap (take 4) c ∙ take-append 4 (to_bytes 4 n) more (sym prefix) in
    (
      input',
      notif',
      rw (
        r,
        read_message,
        front,
        size_prefix (to_bytes 4 n) prefix (to_bytes-IsByte 4 n),
        read_size,
        of_bytes-to_bytes 4 n (omega arith),
      ),
      c' ∙ ap (drop 4) c ∙ drop-append 4 (to_bytes 4 n) more (sym prefix),
      e,
      q',
    )

abbrev Goes : List Twist2DStamped → List ℕ → List ℕ → List Answer → Round → Type 0
Goes drives payload more input r =
    (input' : List Answer) × (notif' : Notif) × (r ≡ again (drives ++ accept payload) input' notif')
    × (carried input' ≡ more)
    × (ends input' ≡ ends input)
    × IsQuiet notif'

read_payload-Goes :
    (drives : List Twist2DStamped) (payload more : List ℕ) (input : List Answer) (notif : Notif)
    → IsPayload payload
    → IsQuiet notif
    → carried input ≡ payload ++ more
    → Goes drives payload more input (read_payload drives (length payload) input notif)
unfolding read_payload
read_payload-Goes drives payload more input notif h q c =
    let (input', notif', r, c', e, q') =
      read_exact-Cut (length payload) [] input notif q
        (omega (arith, ap length c, length-append payload more)) in
    let front : take (length payload) (carried input) ≡ payload =
      ap (take (length payload)) c ∙ take-append (length payload) payload more refl in
    (
      input',
      notif',
      rw (payload_read (length payload) input notif, r, read_payload, front)
          (obey_payload drives payload input' notif' h),
      c' ∙ ap (drop (length payload)) c ∙ drop-append (length payload) payload more refl,
      e,
      q',
    )

not_ready :
    (drives : List Twist2DStamped) (input : List Answer) (notif : Notif)
    → IsQuiet notif
    → round drives input notif ≡ read_message drives input (notif_ready notif).1
unfolding round
not_ready drives input notif q = rw (notif_ready-IsQuiet notif q).0

round-Goes :
    (drives : List Twist2DStamped) (payload more : List ℕ) (input : List Answer) (notif : Notif)
    → IsPayload payload
    → IsQuiet notif
    → carried input ≡ frame payload ++ more
    → Goes drives payload more input (round drives input notif)
round-Goes drives payload more input notif h q c =
    let (input₁, notif₁, r₁, c₁, e₁, q₁) =
      read_message-Sized drives (length payload) (payload ++ more) input (notif_ready notif).1 h.0
        (notif_ready-IsQuiet notif q).1
        (c ∙ append_assoc (to_bytes 4 (length payload)) payload more) in
    let (input₂, notif₂, r₂, c₂, e₂, q₂) =
      read_payload-Goes drives payload more input₁ notif₁ h q₁ c₁ in
    (input₂, notif₂, not_ready drives input notif q ∙ r₁ ∙ r₂, c₂, e₂ ∙ e₁, q₂)

-- What is left of a stream that breaks off within a frame.
abbrev pub IsBrokenOff : List ℕ → Type 0
IsBrokenOff tail =
    (length tail < 4)
    ⊎ ((n : ℕ) × (part : List ℕ) × (tail ≡ to_bytes 4 n ++ part) × (n < 2 ^ 32) × (length part < n))

round_end :
    (drives : List Twist2DStamped) (tail : List ℕ) (input : List Answer) (notif : Notif)
    → IsBrokenOff tail
    → IsQuiet notif
    → carried input ≡ tail
    → ends input ≡ true
    → round drives input notif ≡ leave (send_stop drives)
unfolding read_message read_payload
round_end drives tail input notif (inl short) q c e =
    let (input', notif', r) =
      read_exact-GaveUp 4 [] input (notif_ready notif).1 (notif_ready-IsQuiet notif q).1
        (omega (arith, ap length c)) e in
    not_ready drives input notif q ∙ rw (r, read_message)
round_end drives tail input notif (inr (n, part, t, l, short)) q c e =
    let (input₁, notif₁, r₁, c₁, e₁, q₁) =
      read_message-Sized drives n part input (notif_ready notif).1 l (notif_ready-IsQuiet notif q).1
        (c ∙ t) in
    let (input₂, notif₂, r₂) =
      read_exact-GaveUp n [] input₁ notif₁ q₁ (omega (arith, ap length c₁)) (e₁ ∙ e) in
    not_ready drives input notif q ∙ r₁ ∙ rw (payload_read n input₁ notif₁, r₂, read_payload)

-- The driver on a stream of frames. If the notification is quiet, the stream carries frames whose
-- payloads are bytes and shorter than 2 ^ 32, then a tail that breaks off within a frame, and ends, and
-- there is more fuel than frames, then spin returns and has been given, after what it had before, the
-- commands of those payloads that deserialize, in order, and a stop.
pub spin_frames :
    (fuel : ℕ) (drives : List Twist2DStamped) (payloads : List (List ℕ)) (tail : List ℕ)
    (input : List Answer) (notif : Notif)
    → length payloads < fuel
    → All IsPayload payloads
    → IsBrokenOff tail
    → IsQuiet notif
    → carried input ≡ concat frame payloads ++ tail
    → ends input ≡ true
    → spin fuel drives input notif ≡ returned (drives ++ (concat accept payloads ++ (stop ∷ [])))
unfolding spin
spin_frames zero drives payloads tail input notif l h b q c e = absurd (omega arith)
spin_frames (suc fuel) drives [] tail input notif l h b q c e =
    rw (round_end drives tail input notif b q c e, spin) (unfold send_stop in refl)
spin_frames (suc fuel) drives (p ∷ ps) tail input notif l h b q c e =
    let (input', notif', r, c', e', q') =
      round-Goes drives p (concat frame ps ++ tail) input notif h.0 q
        (c ∙ append_assoc (frame p) (concat frame ps) tail) in
    rw (r, spin)
      (spin_frames fuel (drives ++ accept p) ps tail input' notif' (omega arith) h.1 b q' c'
          (e' ∙ e)
        ∙ ap returned (
            append_assoc drives (accept p) _
            ∙ ap (◌++◌ drives) (sym (append_assoc (accept p) (concat accept ps) (stop ∷ [])))))
