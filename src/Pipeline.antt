-- ===== src/Pipeline.antt =====
-- The two programs of src/teleop_keyboard and src/mbot_driver, with a pipe from the output of the first to
-- the input of the second.
use rob320_p.Base.{
  ℕ, suc, ◌+◌, ◌≡◌, ◌<◌, ◌^◌, List, [], ◌∷◌, ◌++◌, All, IsByte, length, arith, refl, sym, ap, ◌∙◌,
  Bool, true, false, inl, inr, concat, map, append-nil, Option-cases,
}
use rob320_p.Memory.{to_u32}
use rob320_p.Messages.Twist2DStamped
use rob320_p.Messages.Twist2DStamped.{Twist2DStamped, stamped_message, stamped-IsCodec, wire}
use rob320_p.Messages.Delivery.{stamped-AreBytes}
use rob320_p.Io.{Answer, Notif, IsQuiet}
use rob320_p.Io.Stream
use rob320_p.Driver
use rob320_p.Driver.{stop}
use rob320_p.Driver.Steps.{own_size}
use rob320_p.Driver.Frames.{frame, accept, IsPayload, IsBrokenOff, spin_frames}
use rob320_p.Teleop.Key.{Doubles, Speeds, to_upper, velocity, command}
use rob320_p.Teleop.Output.{Wrote, IsWilling}
use rob320_p.Teleop.Loop
use rob320_p.Teleop.Loop.{Event, idle, key, closed, interrupted, would_block, broken}
use rob320_p.Teleop.Sent.{frames, keyed, command-Fits, status, spin-keyed}

-- A command that can be sent: its encoding is short enough, and its frame_id is bytes.
abbrev pub IsCommand : Twist2DStamped → Type 0
IsCommand m = Twist2DStamped.Fits m × All IsByte m.header.frame_id

accept-wire : (m : Twist2DStamped) → IsCommand m → accept (wire m) ≡ m ∷ []
unfolding accept
accept-wire m h = rw (
    (stamped-IsCodec.deserialize-wire m stamped_message.init h.0).reads
      (record { bytes = wire m; size = length (wire m) }) 0 []
      (own_size (wire m) (length (wire m)) (stamped-AreBytes m h.1) refl
        (stamped-IsCodec.short_wire m h.0))
      (sym (append-nil (wire m))) (omega arith))

accept-All : (ms : List Twist2DStamped) → All IsCommand ms → concat accept (map wire ms) ≡ ms
accept-All [] h = refl
accept-All (m ∷ ms) h = rw (accept-wire m h.0) (ap (◌∷◌ m) (accept-All ms h.1))

payloads-All : (ms : List Twist2DStamped) → All IsCommand ms → All IsPayload (map wire ms)
payloads-All [] h = tt
payloads-All (m ∷ ms) h =
    ((stamped-IsCodec.short_wire m h.0.0, stamped-AreBytes m h.0.1), payloads-All ms h.1)

frames-map : (ms : List Twist2DStamped) → concat frame (map wire ms) ≡ frames ms
frames-map [] = refl
frames-map (m ∷ ms) = ap (frame (wire m) ++◌) (frames-map ms)

length-map : (ms : List Twist2DStamped) → length (map wire ms) ≡ length ms
length-map [] = refl
length-map (m ∷ ms) = ap suc (length-map ms)

-- If the notification is quiet, the driver's input carries the frames of commands that fit their
-- encoding, with a frame_id of bytes, then a tail that breaks off within a frame, and ends, and there
-- is more fuel than commands, then spin returns and has been given just these commands and a stop.
pub spin-commands :
    (fuel : ℕ) (ms : List Twist2DStamped) (tail : List ℕ) (input : List Answer) (notif : Notif)
    → length ms < fuel
    → All IsCommand ms
    → IsBrokenOff tail
    → IsQuiet notif
    → Stream.carried input ≡ frames ms ++ tail
    → Stream.ends input ≡ true
    → Driver.spin fuel [] input notif ≡ Driver.returned (ms ++ (stop ∷ []))
spin-commands fuel ms tail input notif l h b q c e =
    spin_frames fuel [] (map wire ms) tail input notif (omega (arith, length-map ms))
      (payloads-All ms h) b q (c ∙ ap (λ bs. bs ++ tail) (sym (frames-map ms))) e
    ∙ ap (λ ds. Driver.returned (ds ++ (stop ∷ []))) (accept-All ms h)

-- What the keyboard has sent when its loop returns or waits.
abbrev pub output : Loop.Spin → List ℕ
output (Loop.returned out) = out
output (Loop.waiting out) = out
output Loop.faulted = []

output-status : (b : Bool) (out : List ℕ) → output (status b out) ≡ out
output-status true out = refl
output-status false out = refl

module _ (fp : Doubles) (speeds : Speeds fp) where
  keyed-AreCommands :
      (events : List Event) (seq : ℕ) → seq < 2 ^ 32 → All IsCommand (keyed fp speeds events seq)
  unfolding keyed
  keyed-AreCommands [] seq l = tt
  keyed-AreCommands (idle ∷ events) seq l = keyed-AreCommands events seq l
  keyed-AreCommands (key ch now ∷ events) seq l =
      elim (Option-cases (velocity fp speeds (to_upper ch))) [
        | inl e ↦ rw (keyed, e) (keyed-AreCommands events seq l)
        | inr (v, e) ↦
            rw (keyed, e)
              (
                (
                  command-Fits fp speeds seq now v l,
                  unfold command in (omega arith, (omega arith, (omega arith, (omega arith, tt)))),
                ),
                keyed-AreCommands events (to_u32 (seq + 1)) (omega arith),
              )
      ]
  keyed-AreCommands (closed ∷ events) seq l = tt
  keyed-AreCommands (interrupted ∷ events) seq l = keyed-AreCommands events seq l
  keyed-AreCommands (would_block ∷ events) seq l = keyed-AreCommands events seq l
  keyed-AreCommands (broken ∷ events) seq l = tt

  -- The keyboard and the driver end to end. If the notifications are quiet, every write takes a byte at
  -- least or is interrupted, the driver's input carries the bytes that the keyboard's loop has sent
  -- (however they are cut, with interrupts and waits) and then ends, and there is more fuel than
  -- commands, then the driver returns and has been given just the commands of the keys, in order, and a
  -- stop behind them.
  pub spin-output :
      (events : List Event) (ws : List Wrote) (input : List Answer) (notif notif' : Notif)
      (fuel : ℕ)
      → IsWilling ws
      → IsQuiet notif
      → IsQuiet notif'
      → Stream.carried input ≡ output (Loop.spin fp speeds events 0 [] ws notif)
      → Stream.ends input ≡ true
      → length (keyed fp speeds events 0) < fuel
      → Driver.spin fuel [] input notif' ≡ Driver.returned (keyed fp speeds events 0 ++ (stop ∷ []))
  spin-output events ws input notif notif' fuel h q q' c e l =
      spin-commands fuel (keyed fp speeds events 0) [] input notif' l
        (keyed-AreCommands events 0 (omega arith)) (inl (omega arith)) q'
        (c
          ∙ ap output (spin-keyed fp speeds events 0 [] ws notif (omega arith) h q)
          ∙ output-status _ _
          ∙ sym (append-nil _))
        e
