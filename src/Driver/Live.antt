-- ===== src/Driver/Live.antt =====
-- MBotDriver::spin (src/mbot_driver/mbot_driver.cpp) on the objects that it calls, whose state each call changes.
pub mod Mirrors
pub mod Prompt
use rob320_p.Base.{
  ℕ, zero, suc, ◌-◌, List, [], ◌∷◌, ◌++◌, Bool, true, false, Option, none, some, ltb, if◌then◌else◌,
  length,
}
use rob320_p.Base.Int.{pos}
use rob320_p.Memory.{fault, failed, done}
use rob320_p.Serialization.Deserialize.{deserialize_number}
use rob320_p.Messages.Twist2DStamped
use rob320_p.Messages.Twist2DStamped.{Twist2DStamped, stamped_message}
use rob320_p.Util.Duration.{Duration}
use rob320_p.Io.{bytes, interrupted, would_block, broken}
use rob320_p.Io.Interfaces.{Channel, Notification, MBotBase, no_time}
use rob320_p.Driver.{stop}

-- Duration(0.001)
abbrev pub brief : Duration
brief = record { d = pos 1_000_000 }

module _ (S : Type 0) where
  -- The result of `read_exact`. `hangs`: the fuel has run out, or a call does not return.
  pub data Exact : Type 0 where
    full : List ℕ → S → Exact
    gave_up : S → Exact
    hangs : Exact

  -- How a round ends. The list is the commands that the robot was given.
  pub data Round : Type 0 where
    leave : List Twist2DStamped → S → Round
    again : List Twist2DStamped → S → Round
    stuck : List Twist2DStamped → Round
    crash : Round

  pub data Spin : Type 0 where
    returned : List Twist2DStamped → S → Spin
    hanging : List Twist2DStamped → Spin
    faulted : Spin
    unfinished : Spin

  -- The notification is a pointer, which may be null.
  module _ (input : Channel S) (notif : Option (Notification S)) (mbot : MBotBase S) where
    unfoldable pub notif_ready : Option (Notification S) → S → Option (Bool × S)
    notif_ready none s = some (false, s)
    notif_ready (some n) s = n.wait no_time s

    -- `n` is what is missing, n - got, and `dst` the `got` bytes that are there. A unit of fuel is a read.
    unfoldable pub read_exact : ℕ → ℕ → List ℕ → S → Exact
    unfolding notif_ready
    read_exact fuel zero dst s = full dst s
    read_exact zero (suc n) dst s = hangs
    read_exact (suc fuel) (suc n) dst s = elim (input.read (suc n) s).0 [
      | bytes [] ↦ gave_up (input.read (suc n) s).1
      | bytes (b ∷ bs) ↦
          read_exact fuel (suc n - length (b ∷ bs)) (dst ++ (b ∷ bs)) (input.read (suc n) s).1
      | interrupted ↦ read_exact fuel (suc n) dst (input.read (suc n) s).1
      | would_block ↦ elim (notif_ready notif (input.read (suc n) s).1) [
        | none ↦ hangs
        | some (ready, s') ↦ elim ready [
          | true ↦ gave_up s'
          | false ↦ read_exact fuel (suc n) dst (input.wait_for_readable brief s').1
        ]
      ]
      | broken ↦ gave_up (input.read (suc n) s).1
    ]

    abbrev pub stop_and_leave : List Twist2DStamped → S → Round
    stop_and_leave drives s = leave (drives ++ (stop ∷ [])) (mbot.drive stop s)

    unfoldable pub obey : List Twist2DStamped → List ℕ → S → Round
    obey drives payload s =
        elim (Twist2DStamped.deserialize stamped_message.init
          (record { bytes = payload; size = length payload }) 0) [
            | fault ↦ crash
            | failed cmd off ↦ again drives s
            | done cmd off ↦ again (drives ++ (cmd ∷ [])) (mbot.drive cmd s)
          ]

    unfoldable pub read_payload : ℕ → List Twist2DStamped → ℕ → S → Round
    unfolding obey read_exact
    read_payload fuel drives msg_size s =
        elim (if ltb 0 msg_size then read_exact fuel msg_size [] s else full [] s) [
          | hangs ↦ stuck drives
          | gave_up s ↦ stop_and_leave drives s
          | full payload s ↦ obey drives payload s
        ]

    unfoldable pub read_size : ℕ → List Twist2DStamped → List ℕ → S → Round
    unfolding read_payload
    read_size fuel drives size_buf s =
        elim (deserialize_number 4 0 (record { bytes = size_buf; size = 4 }) 0) [
          | fault ↦ crash
          | failed n off ↦ stop_and_leave drives s
          | done msg_size off ↦ read_payload fuel drives msg_size s
        ]

    unfoldable pub read_message : ℕ → List Twist2DStamped → S → Round
    unfolding read_size read_exact
    read_message fuel drives s = elim (read_exact fuel 4 [] s) [
      | hangs ↦ stuck drives
      | gave_up s ↦ stop_and_leave drives s
      | full size_buf s ↦ read_size fuel drives size_buf s
    ]

    unfoldable pub round : ℕ → List Twist2DStamped → S → Round
    unfolding read_message notif_ready
    round fuel drives s = elim (notif_ready notif s) [
      | none ↦ stuck drives
      | some (ready, s') ↦ elim ready [
        | true ↦ stop_and_leave drives s'
        | false ↦ read_message fuel drives s'
      ]
    ]

    -- `while (true)`, for as many rounds as there is fuel, with `reads` for each read_exact.
    unfoldable pub rounds : ℕ → ℕ → List Twist2DStamped → S → Spin
    unfolding round
    rounds zero reads drives s = unfinished
    rounds (suc fuel) reads drives s = elim (round reads drives s) [
      | leave drives s ↦ returned drives s
      | again drives s ↦ rounds fuel reads drives s
      | stuck drives ↦ hanging drives
      | crash ↦ faulted
    ]

    -- The loop from just behind the poll of a round.
    unfoldable pub rounds_polled : ℕ → ℕ → List Twist2DStamped → S → Spin
    unfolding read_message rounds
    rounds_polled fuel reads drives s = elim (read_message reads drives s) [
      | leave drives s ↦ returned drives s
      | again drives s ↦ rounds fuel reads drives s
      | stuck drives ↦ hanging drives
      | crash ↦ faulted
    ]

    unfoldable pub spin : ℕ → ℕ → S → Spin
    unfolding rounds
    spin fuel reads s = rounds fuel reads [] (input.set_nonblocking true s)
