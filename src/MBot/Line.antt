-- ===== src/MBot/Line.antt =====
-- The serial line of MBot under its mutex (src/mbot/mbot.cpp): drive and timesync on any number of threads. A
-- write under the lock goes out byte by byte; it may fail or stop before its end, which drive does not look at.
pub mod Order
use rob320_p.Base.{
  ℕ, zero, suc, ◌+◌, ◌≡◌, ◌≢◌, ◌≤◌, ◌<◌, ◌^◌, List, [], ◌∷◌, ◌++◌, Bool, true, false, Option, none,
  some, length, All, refl, arith, ap, ◌∙◌, sym, Bool-cases, inl, inr, ◌⊎◌, ◌==◌, if◌then◌else◌,
  append-nil, append_assoc,
}
use mathlib.Core.Path.{subst}
use rob320_p.Messages.Twist2DStamped.{Twist2DStamped}
use rob320_p.Ipc.Ownership.{update}
use rob320_p.MBot.{encode_msg, encoded, refused, fault, filled}
use rob320_p.MBot.Packet.{packet, encode_msg-packet}
use rob320_p.MBot.Drive.{twist_bytes, mbot_vel_cmd, length-twist_bytes}
use rob320_p.MBot.Timesync.{Tick, timestamp_bytes, mbot_timesync, length-timestamp_bytes}
use rob320_p.MBot.Receive.{Message, packet_of, IsMessage, receive, line, line-append, receive-line}

-- Where a thread stands: outside, before mtx.lock() with its packet, or within the lock with the bytes that
-- are left to write.
pub data Pc : Type 0 where
  idle : Pc
  waiting : List ℕ → Pc
  writing : List ℕ → Pc

pub record System : Type 0 where
  pub mtx : Option ℕ
  -- Some write did not take all of its bytes.
  pub cut : Bool
  pub written : List ℕ
  pub threads : ℕ → Pc

pub data Step (s s' : System) : Type 0 where
  drives :
      (i : ℕ) (cmd : Twist2DStamped) (old msg : List ℕ)
      → s.threads i ≡ idle
      → encode_msg (twist_bytes cmd) mbot_vel_cmd old ≡ encoded msg
      → s' ≡ record s { threads = update i (waiting msg) s.threads }
      → Step s s'
  ticks :
      (i : ℕ) (t : Tick) (msg : List ℕ)
      → s.threads i ≡ idle
      → encode_msg (timestamp_bytes t) mbot_timesync t.old ≡ encoded msg
      → s' ≡ record s { threads = update i (waiting msg) s.threads }
      → Step s s'
  locks :
      (i : ℕ) (msg : List ℕ)
      → s.threads i ≡ waiting msg
      → s.mtx ≡ none
      → s' ≡ record s { mtx = some i; threads = update i (writing msg) s.threads }
      → Step s s'
  writes :
      (i b : ℕ) (rest : List ℕ)
      → s.threads i ≡ writing (b ∷ rest)
      → s'
        ≡ record s { written = s.written ++ (b ∷ []); threads = update i (writing rest) s.threads }
      → Step s s'
  unlocks :
      (i : ℕ)
      → s.threads i ≡ writing []
      → s' ≡ record s { mtx = none; threads = update i idle s.threads }
      → Step s s'
  cuts :
      (i b : ℕ) (rest : List ℕ)
      → s.threads i ≡ writing (b ∷ rest)
      → s' ≡ record s { mtx = none; cut = true; threads = update i idle s.threads }
      → Step s s'

pub data Reach (s : System) : System → Type 0 where
  here : Reach s s
  next : {t u : System} → Reach s t → Step t u → Reach s u

-- A velocity command or a timestamp.
abbrev pub IsSent : Message → Type 0
IsSent m =
    ((cmd : Twist2DStamped) × (m ≡ record { topic = mbot_vel_cmd; msg = twist_bytes cmd }))
    ⊎ ((t : Tick) × (m ≡ record { topic = mbot_timesync; msg = timestamp_bytes t }))
