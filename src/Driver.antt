-- ===== src/Driver.antt =====
-- src/mbot_driver/mbot_driver.cpp: MBotDriver::spin. `drives` are the commands that `mbot->drive` was
-- given, oldest first. The result of `wait_for_readable` is not used there, and it changes nothing
-- here.
pub mod ReadExact
pub mod Steps
pub mod Safety
pub mod Frames
pub mod Live
use rob320_p.Base.{
  ℕ, zero, suc, ◌-◌, ◌<◌, List, [], ◌∷◌, ◌++◌, Bool, true, false, leb, ltb, if◌then◌else◌, length,
  take, drop,
}
use rob320_p.Memory.{Src, Outcome, fault, failed, done}
use rob320_p.Serialization.Deserialize.{deserialize_number}
use rob320_p.Messages.Twist2DStamped
use rob320_p.Messages.Twist2DStamped.{Twist2DStamped, stamped_message}
use rob320_p.Io.{Answer, bytes, interrupted, would_block, broken, Notif, notif_ready}

-- The result of `read_exact`, with what is left of the environment. `waits`: no answer is left.
pub data Exact : Type 0 where
  full : List ℕ → List Answer → Notif → Exact
  gave_up : List Answer → Notif → Exact
  waits : Exact

-- `n` is what is missing, n - got, and `dst` the `got` bytes that are there.
unfoldable pub read_exact : ℕ → List ℕ → List Answer → Notif → Exact
read_exact zero dst input notif = full dst input notif
read_exact (suc n) dst [] notif = waits
read_exact (suc n) dst (bytes [] ∷ input) notif = gave_up input notif
read_exact (suc n) dst (bytes (b ∷ bs) ∷ input) notif = elim (leb (length (b ∷ bs)) (suc n)) [
  | true ↦ read_exact (suc n - length (b ∷ bs)) (dst ++ (b ∷ bs)) input notif
  | false ↦ full (dst ++ take (suc n) (b ∷ bs)) (bytes (drop (suc n) (b ∷ bs)) ∷ input) notif
]
read_exact (suc n) dst (interrupted ∷ input) notif = read_exact (suc n) dst input notif
read_exact (suc n) dst (would_block ∷ input) notif = elim (notif_ready notif).0 [
  | true ↦ gave_up input (notif_ready notif).1
  | false ↦ read_exact (suc n) dst input (notif_ready notif).1
]
read_exact (suc n) dst (broken ∷ input) notif = gave_up input notif

-- `Twist2DStamped stop{}` with its speeds set to 0.0.
abbrev pub stop : Twist2DStamped
stop = stamped_message.init

unfoldable pub send_stop : List Twist2DStamped → List Twist2DStamped
send_stop drives = drives ++ (stop ∷ [])

-- How a round of the loop ends: `return`, the next round, a read without an answer, or a fault.
pub data Round : Type 0 where
  leave : List Twist2DStamped → Round
  again : List Twist2DStamped → List Answer → Notif → Round
  pause : List Twist2DStamped → Round
  crash : Round

-- Deserialize and drive; a bad message is ignored.
unfoldable pub obey : List Twist2DStamped → List ℕ → List Answer → Notif → Round
obey drives payload input notif =
    elim (Twist2DStamped.deserialize stamped_message.init
      (record { bytes = payload; size = length payload }) 0) [
        | fault ↦ crash
        | failed cmd off ↦ again drives input notif
        | done cmd off ↦ again (drives ++ (cmd ∷ [])) input notif
      ]

unfoldable pub read_payload : List Twist2DStamped → ℕ → List Answer → Notif → Round
unfolding obey read_exact send_stop
read_payload drives msg_size input notif =
    elim (if ltb 0 msg_size then read_exact msg_size [] input notif else full [] input notif) [
      | waits ↦ pause drives
      | gave_up input notif ↦ leave (send_stop drives)
      | full payload input notif ↦ obey drives payload input notif
    ]

unfoldable pub read_size : List Twist2DStamped → List ℕ → List Answer → Notif → Round
unfolding read_payload send_stop
read_size drives size_buf input notif =
    elim (deserialize_number 4 0 (record { bytes = size_buf; size = 4 }) 0) [
      | fault ↦ crash
      | failed n off ↦ leave (send_stop drives)
      | done msg_size off ↦ read_payload drives msg_size input notif
    ]

unfoldable pub read_message : List Twist2DStamped → List Answer → Notif → Round
unfolding read_size read_exact send_stop
read_message drives input notif = elim (read_exact 4 [] input notif) [
  | waits ↦ pause drives
  | gave_up input notif ↦ leave (send_stop drives)
  | full size_buf input notif ↦ read_size drives size_buf input notif
]

unfoldable pub round : List Twist2DStamped → List Answer → Notif → Round
unfolding read_message send_stop
round drives input notif =
    if (notif_ready notif).0
    then leave (send_stop drives)
    else read_message drives input (notif_ready notif).1

-- How `spin` stands: returned, waiting for input, out of its buffers, or out of fuel.
pub data Spin : Type 0 where
  returned : List Twist2DStamped → Spin
  waiting : List Twist2DStamped → Spin
  faulted : Spin
  unfinished : Spin

-- `while (true)`, for as many rounds as there is fuel.
unfoldable pub spin : ℕ → List Twist2DStamped → List Answer → Notif → Spin
unfolding round
spin zero drives input notif = unfinished
spin (suc fuel) drives input notif = elim (round drives input notif) [
  | leave drives ↦ returned drives
  | again drives input notif ↦ spin fuel drives input notif
  | pause drives ↦ waiting drives
  | crash ↦ faulted
]
