-- ===== src/Driver/Live/Mirrors/Stopped.antt =====
-- The last call of a run of MBotDriver::spin on its objects (src/mbot_driver/mbot_driver.cpp).
use rob320_p.Base.{
  ℕ, zero, suc, ◌≡◌, List, [], Option, length, ltb, if◌then◌else◌, refl, Option-cases, Bool-cases,
  inl, inr,
}
use rob320_p.Memory.{Outcome, fault, failed, done}
use rob320_p.Serialization.Deserialize.{deserialize_number}
use rob320_p.Messages.Twist2DStamped
use rob320_p.Messages.Twist2DStamped.{Twist2DStamped, stamped_message}
use rob320_p.Io.Interfaces.{Channel, Notification, MBotBase}
use rob320_p.Driver.{stop}
use rob320_p.Driver.Safety.{EndsInStop}
use rob320_p.Driver.Live.{
  Exact, full, gave_up, hangs, Round, leave, again, stuck, crash, Spin, returned, hanging, faulted,
  unfinished, notif_ready, read_exact, obey, read_payload, read_size, read_message, round, rounds,
}

module _ {S : Type 0} (input : Channel S) (notif : Option (Notification S))
    (mbot : MBotBase S) where
  -- What was done last is the stop.
  abbrev pub Stopped : S → Type 0
  Stopped s = (before : S) × (s ≡ mbot.drive stop before)

  abbrev LeavesStopped : Round S → Type 0
  LeavesStopped (leave drives s) = Stopped s
  LeavesStopped (again drives s) = Unit {0}
  LeavesStopped (stuck drives) = Unit {0}
  LeavesStopped crash = Unit {0}

  obey-LeavesStopped :
      (drives : List Twist2DStamped) (payload : List ℕ) (s : S) (r : Outcome Twist2DStamped)
      → Twist2DStamped.deserialize stamped_message.init
          (record { bytes = payload; size = length payload })
          0
        ≡ r
      → LeavesStopped (obey S input notif mbot drives payload s)
  unfolding obey
  obey-LeavesStopped drives payload s fault e = rw (obey, e) tt
  obey-LeavesStopped drives payload s (failed cmd off) e = rw (obey, e) tt
  obey-LeavesStopped drives payload s (done cmd off) e = rw (obey, e) tt

  payload-LeavesStopped :
      (fuel n : ℕ) (drives : List Twist2DStamped) (s : S) (r : Exact S)
      → (if ltb 0 n then read_exact S input notif mbot fuel n [] s else full [] s) ≡ r
      → LeavesStopped (read_payload S input notif mbot fuel drives n s)
  unfolding read_payload
  payload-LeavesStopped fuel n drives s (full payload s') e =
      rw (read_payload, e) (obey-LeavesStopped drives payload s' _ refl)
  payload-LeavesStopped fuel n drives s (gave_up s') e = rw (read_payload, e) (s', refl)
  payload-LeavesStopped fuel n drives s hangs e = rw (read_payload, e) tt

  size-LeavesStopped :
      (fuel : ℕ) (drives : List Twist2DStamped) (size_buf : List ℕ) (s : S) (r : Outcome ℕ)
      → deserialize_number 4 0 (record { bytes = size_buf; size = 4 }) 0 ≡ r
      → LeavesStopped (read_size S input notif mbot fuel drives size_buf s)
  unfolding read_size
  size-LeavesStopped fuel drives size_buf s fault e = rw (e, read_size) tt
  size-LeavesStopped fuel drives size_buf s (failed n off) e = rw (e, read_size) (s, refl)
  size-LeavesStopped fuel drives size_buf s (done n off) e =
      rw (e, read_size) (payload-LeavesStopped fuel n drives s _ refl)

  message-LeavesStopped :
      (fuel : ℕ) (drives : List Twist2DStamped) (s : S) (r : Exact S)
      → read_exact S input notif mbot fuel 4 [] s ≡ r
      → LeavesStopped (read_message S input notif mbot fuel drives s)
  unfolding read_message
  message-LeavesStopped fuel drives s (full size_buf s') e =
      rw (e, read_message) (size-LeavesStopped fuel drives size_buf s' _ refl)
  message-LeavesStopped fuel drives s (gave_up s') e = rw (e, read_message) (s', refl)
  message-LeavesStopped fuel drives s hangs e = rw (e, read_message) tt

  round-LeavesStopped :
      (fuel : ℕ) (drives : List Twist2DStamped) (s : S)
      → LeavesStopped (round S input notif mbot fuel drives s)
  unfolding round
  round-LeavesStopped fuel drives s = elim (Option-cases (notif_ready S input notif mbot notif s)) [
    | inl e ↦ rw (round, e) tt
    | inr ((ready, s'), e) ↦ elim (Bool-cases ready) [
      | inl f ↦ rw (round, e, f) (s', refl)
      | inr f ↦ rw (round, e, f) (message-LeavesStopped fuel drives s' _ refl)
    ]
  ]

  -- Where a run returns, the robot was told to stop by the last call.
  abbrev pub EndsStopped : Spin S → Type 0
  EndsStopped (returned drives s) = EndsInStop drives × Stopped s
  EndsStopped (hanging drives) = Unit {0}
  EndsStopped faulted = ⊥
  EndsStopped unfinished = Unit {0}

  abbrev pub StopsLast : Spin S → Type 0
  StopsLast (returned drives s) = Stopped s
  StopsLast (hanging drives) = Unit {0}
  StopsLast faulted = Unit {0}
  StopsLast unfinished = Unit {0}

  round-StopsLast :
      (fuel reads : ℕ) (drives : List Twist2DStamped) (s : S) (r : Round S)
      → round S input notif mbot reads drives s ≡ r
      → LeavesStopped r
      → ((drives : List Twist2DStamped) (s : S)
          → StopsLast (rounds S input notif mbot fuel reads drives s))
      → StopsLast (rounds S input notif mbot (suc fuel) reads drives s)
  unfolding rounds
  round-StopsLast fuel reads drives s (leave d q) e h ih = rw (rounds, e) h
  round-StopsLast fuel reads drives s (again d q) e h ih = rw (rounds, e) (ih d q)
  round-StopsLast fuel reads drives s (stuck d) e h ih = rw (rounds, e) tt
  round-StopsLast fuel reads drives s crash e h ih = rw (rounds, e) tt

  pub rounds-StopsLast :
      (fuel reads : ℕ) (drives : List Twist2DStamped) (s : S)
      → StopsLast (rounds S input notif mbot fuel reads drives s)
  unfolding rounds
  rounds-StopsLast zero reads drives s = tt
  rounds-StopsLast (suc fuel) reads drives s =
      round-StopsLast fuel reads drives s _ refl (round-LeavesStopped reads drives s)
        (λ ds s'. rounds-StopsLast fuel reads ds s')
