-- ===== src/Tests/Line.antt =====
-- The serial line with two threads.
use rob320_p.Base.{
  ℕ, ◌≡◌, ◌++◌, List, [], ◌∷◌, none, some, length, All, refl, ap, ◌+◌, replicate, to_bytes,
}
use rob320_p.Base.Int.{pos}
use rob320_p.Ipc.Ownership.{update}
use rob320_p.MBot.{encode_msg, encoded}
use rob320_p.MBot.Packet.{packet, encode_msg-packet}
use rob320_p.MBot.Timesync.{Tick, mbot_timesync, timestamp_bytes, length-timestamp_bytes}
use rob320_p.MBot.Receive.{Message, receive}
use rob320_p.MBot.Line
use rob320_p.MBot.Line.{
  Pc, waiting, writing, idle, System, Reach, here, next, ticks, locks, unlocks, IsSent,
}
use rob320_p.MBot.Line.Order.{quiet, receive-written}

abbrev tick : Tick
tick = record { tv_sec = pos 3; tv_nsec = 4_000; old = replicate 16 7 }

abbrev stamped : List ℕ
stamped = packet (timestamp_bytes tick) mbot_timesync

-- Thread `i` writes `bs`.
unfoldable emit : ℕ → List ℕ → System → System
emit i [] s = s
emit i (b ∷ rest) s =
    emit i rest
      (record s { written = s.written ++ (b ∷ []); threads = update i (writing rest) s.threads })

emit-Reach :
    (bs : List ℕ) (s : System)
    → Reach quiet s
    → s.threads 0 ≡ writing bs
    → Reach quiet (emit 0 bs s) × (emit 0 bs s).threads 0 ≡ writing []
unfolding emit
emit-Reach [] s r e = (r, e)
emit-Reach (b ∷ rest) s r e =
    emit-Reach rest
      (record s { written = s.written ++ (b ∷ []); threads = update 0 (writing rest) s.threads })
      (next r (Line.writes 0 b rest e refl)) refl

abbrev asked : System
asked = record quiet { threads = update 0 (waiting stamped) quiet.threads }

-- Thread 1 waits while thread 0 writes.
abbrev both_asked : System
both_asked = record asked { threads = update 1 (waiting stamped) asked.threads }

abbrev locked : System
locked = record both_asked { mtx = some 0; threads = update 0 (writing stamped) both_asked.threads }

abbrev emitted : System
emitted = emit 0 stamped locked

abbrev sent : System
sent = record emitted { mtx = none; threads = update 0 idle emitted.threads }

tick-encoded : encode_msg (timestamp_bytes tick) mbot_timesync tick.old ≡ encoded stamped
tick-encoded =
    encode_msg-packet (timestamp_bytes tick) mbot_timesync tick.old
      (ap (λ n. n + 8) (length-timestamp_bytes tick))

locked-Reach : Reach quiet locked
locked-Reach =
    next
      (next (next here (ticks 0 tick stamped refl tick-encoded refl))
        (ticks 1 tick stamped refl tick-encoded refl))
      (locks 0 stamped refl refl refl)

sent-Reach : Reach quiet sent
unfolding emit
sent-Reach = let (r, e) = emit-Reach stamped locked locked-Reach refl in next r (unlocks 0 e refl)

receive-written_example :
    (ms : List Message) × (receive (length ms) sent.written ≡ some ms) × All IsSent ms
unfolding emit timestamp_bytes to_bytes
receive-written_example = receive-written sent sent-Reach refl refl
