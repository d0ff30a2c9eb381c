-- ===== src/MBot/Line/Order.antt =====
-- The mutex keeps the packets on the serial line whole (src/mbot/mbot.cpp).
use rob320_p.Base.{
  ℕ, ◌+◌, ◌≡◌, ◌≢◌, List, [], ◌∷◌, ◌++◌, true, false, none, some, length, All, refl, arith, ap, ◌∙◌,
  sym, Bool-cases, inl, inr, ◌⊎◌, ◌==◌, append-nil, append_assoc,
}
use mathlib.Core.Path.{subst}
use rob320_p.Ipc.Ownership.{update}
use rob320_p.MBot.{encode_msg, encoded}
use rob320_p.MBot.Packet.{packet, encode_msg-packet}
use rob320_p.MBot.Drive.{twist_bytes, mbot_vel_cmd, length-twist_bytes}
use rob320_p.MBot.Timesync.{timestamp_bytes, mbot_timesync, length-timestamp_bytes}
use rob320_p.MBot.Receive.{Message, packet_of, IsMessage, receive, line, line-append, receive-line}
use rob320_p.MBot.Line.{
  Pc, idle, waiting, writing, System, Step, drives, ticks, locks, writes, unlocks, cuts, Reach,
  here, next, IsSent,
}

abbrev IsWhole : List ℕ → Type 0
IsWhole bs = (ms : List Message) × (bs ≡ line ms) × All IsSent ms

record IsOrderly (s : System) : Type 0 where
  asked :
      (i : ℕ) (msg : List ℕ)
      → s.threads i ≡ waiting msg
      → (m : Message) × (msg ≡ packet_of m) × IsSent m
  holds : (i : ℕ) (rest : List ℕ) → s.threads i ≡ writing rest → s.mtx ≡ some i
  free : s.cut ≡ false → s.mtx ≡ none → IsWhole s.written
  busy :
      s.cut ≡ false
      → (i : ℕ) (rest : List ℕ) → s.threads i ≡ writing rest
      → IsWhole (s.written ++ rest)

encoded_same : {a b : List ℕ} → encoded a ≡ encoded b → a ≡ b
encoded_same h = cc

encode_msg-encoded :
    (msg old pkt : List ℕ) (topic : ℕ)
    → encode_msg msg topic old ≡ encoded pkt
    → pkt ≡ packet msg topic
unfolding encode_msg
encode_msg-encoded msg old pkt topic h = elim (Bool-cases (length msg + 8 == length old)) [
  | inl e ↦ encoded_same (sym h ∙ encode_msg-packet msg topic old (ground (arith, e)))
  | inr e ↦ absurd (ground (arith, h, e))
]

All-append : (ms ns : List Message) → All IsSent ms → All IsSent ns → All IsSent (ms ++ ns)
All-append [] ns h k = k
All-append (m ∷ ms) ns (h, hs) k = (h, All-append ms ns hs k)

IsWhole-packet : (bs : List ℕ) (m : Message) → IsWhole bs → IsSent m → IsWhole (bs ++ packet_of m)
unfolding line
IsWhole-packet bs m (ms, e, h) k = (
  ms ++ (m ∷ []),
  ap (λ x. x ++ packet_of m) e
      ∙ ap (◌++◌ (line ms)) (sym (append-nil (packet_of m)))
      ∙ sym (line-append ms (m ∷ [])),
  All-append ms (m ∷ []) h (k, tt),
)

update_cases :
    (i j : ℕ) (a b : Pc) (f : ℕ → Pc)
    → update i a f j ≡ b
    → ((i ≡ j) × (a ≡ b)) ⊎ ((i ≢ j) × (f j ≡ b))
update_cases i j a b f h = elim (Bool-cases (i == j)) [
  | inl e ↦ inl (ground (arith, e), ground (arith, e, h))
  | inr e ↦ inr (λ same. ground (arith, e, same), ground (arith, e, h))
]

waiting_same : {a b : List ℕ} → waiting a ≡ waiting b → a ≡ b
waiting_same h = cc

writing_same : {a b : List ℕ} → writing a ≡ writing b → a ≡ b
writing_same h = cc

some_same : {a b : ℕ} → some a ≡ some b → a ≡ b
some_same h = cc

module _ (s : System) (h : IsOrderly s) where
  only_writer : (i j : ℕ) (a b : List ℕ) → s.threads i ≡ writing a → s.threads j ≡ writing b → i ≡ j
  only_writer i j a b e f = some_same (sym (h.holds i a e) ∙ h.holds j b f)

  asks-IsOrderly :
      (i : ℕ) (m : Message) (msg : List ℕ)
      → msg ≡ packet_of m
      → IsSent m
      → IsOrderly (record s { threads = update i (waiting msg) s.threads })
  asks-IsOrderly i m msg e k = record {
    asked = λ j msg' f. elim (update_cases i j (waiting msg) (waiting msg') s.threads f) [
      | inl (same, g) ↦ (m, sym (waiting_same g) ∙ e, k)
      | inr (d, g) ↦ h.asked j msg' g
    ];
    holds = λ j rest f. h.holds j rest (ground (arith, f));
    free = h.free;
    busy = λ c j rest f. h.busy c j rest (ground (arith, f));
  }

  locks-IsOrderly :
      (i : ℕ) (msg : List ℕ)
      → s.threads i ≡ waiting msg
      → s.mtx ≡ none
      → IsOrderly (record s { mtx = some i; threads = update i (writing msg) s.threads })
  locks-IsOrderly i msg e n = record {
    asked = λ j msg' f. h.asked j msg' (ground (arith, f));
    holds = λ j rest f. elim (update_cases i j (writing msg) (writing rest) s.threads f) [
      | inl (same, g) ↦ ap some same
      | inr (d, g) ↦ absurd (ground (arith, n, h.holds j rest g))
    ];
    free = λ c f. absurd (ground (arith, f));
    busy = λ c j rest f. elim (update_cases i j (writing msg) (writing rest) s.threads f) [
      | inl (same, g) ↦
          let (m, p, k) = h.asked i msg e in
          subst (λ x. IsWhole (s.written ++ x)) (sym p ∙ writing_same g)
            (IsWhole-packet s.written m (h.free c n) k)
      | inr (d, g) ↦ absurd (ground (arith, n, h.holds j rest g))
    ];
  }

  writes-IsOrderly :
      (i b : ℕ) (rest : List ℕ)
      → s.threads i ≡ writing (b ∷ rest)
      → IsOrderly (record s {
        written = s.written ++ (b ∷ []);
        threads = update i (writing rest) s.threads;
      })
  writes-IsOrderly i b rest e = record {
    asked = λ j msg f. h.asked j msg (ground (arith, f));
    holds = λ j rest' f. elim (update_cases i j (writing rest) (writing rest') s.threads f) [
      | inl (same, g) ↦ h.holds i (b ∷ rest) e ∙ ap some same
      | inr (d, g) ↦ h.holds j rest' g
    ];
    free = λ c f. absurd (ground (arith, f, h.holds i (b ∷ rest) e));
    busy = λ c j rest' f. elim (update_cases i j (writing rest) (writing rest') s.threads f) [
      | inl (same, g) ↦
          subst IsWhole
            (sym (append_assoc s.written (b ∷ []) rest)
              ∙ ap (λ x. (s.written ++ (b ∷ [])) ++ x) (writing_same g))
            (h.busy c i (b ∷ rest) e)
      | inr (d, g) ↦ absurd (d (only_writer i j (b ∷ rest) rest' e g))
    ];
  }

  unlocks-IsOrderly :
      (i : ℕ)
      → s.threads i ≡ writing []
      → IsOrderly (record s { mtx = none; threads = update i idle s.threads })
  unlocks-IsOrderly i e = record {
    asked = λ j msg f. h.asked j msg (ground (arith, f));
    holds = λ j rest f. elim (update_cases i j idle (writing rest) s.threads f) [
      | inl (same, g) ↦ absurd (ground (arith, g))
      | inr (d, g) ↦ absurd (d (only_writer i j [] rest e g))
    ];
    free = λ c f. subst IsWhole (append-nil s.written) (h.busy c i [] e);
    busy = λ c j rest f. elim (update_cases i j idle (writing rest) s.threads f) [
      | inl (same, g) ↦ absurd (ground (arith, g))
      | inr (d, g) ↦ absurd (d (only_writer i j [] rest e g))
    ];
  }

  cuts-IsOrderly :
      (i b : ℕ) (rest : List ℕ)
      → s.threads i ≡ writing (b ∷ rest)
      → IsOrderly (record s { mtx = none; cut = true; threads = update i idle s.threads })
  cuts-IsOrderly i b rest e = record {
    asked = λ j msg f. h.asked j msg (ground (arith, f));
    holds = λ j rest' f. elim (update_cases i j idle (writing rest') s.threads f) [
      | inl (same, g) ↦ absurd (ground (arith, g))
      | inr (d, g) ↦ absurd (d (only_writer i j (b ∷ rest) rest' e g))
    ];
    free = λ c f. absurd (ground (arith, c));
    busy = λ c j rest' f. absurd (ground (arith, c));
  }

Step-IsOrderly : (s s' : System) → Step s s' → IsOrderly s → IsOrderly s'
Step-IsOrderly s s' (drives i cmd old msg e f g) h = subst IsOrderly (sym g) (
    asks-IsOrderly s h i (record { topic = mbot_vel_cmd; msg = twist_bytes cmd }) msg
      (encode_msg-encoded (twist_bytes cmd) old msg mbot_vel_cmd f) (inl (cmd, refl)))
Step-IsOrderly s s' (ticks i t msg e f g) h = subst IsOrderly (sym g) (
    asks-IsOrderly s h i (record { topic = mbot_timesync; msg = timestamp_bytes t }) msg
      (encode_msg-encoded (timestamp_bytes t) t.old msg mbot_timesync f) (inr (t, refl)))
Step-IsOrderly s s' (locks i msg e n g) h = subst IsOrderly (sym g) (locks-IsOrderly s h i msg e n)
Step-IsOrderly s s' (writes i b rest e g) h =
    subst IsOrderly (sym g) (writes-IsOrderly s h i b rest e)
Step-IsOrderly s s' (unlocks i e g) h = subst IsOrderly (sym g) (unlocks-IsOrderly s h i e)
Step-IsOrderly s s' (cuts i b rest e g) h = subst IsOrderly (sym g) (cuts-IsOrderly s h i b rest e)

Reach-IsOrderly : {s s' : System} → Reach s s' → IsOrderly s → IsOrderly s'
Reach-IsOrderly here h = h
Reach-IsOrderly (next r st) h = Step-IsOrderly _ _ st (Reach-IsOrderly r h)

-- Nothing is written, and every thread is outside.
abbrev pub quiet : System
quiet = record { mtx = none; cut = false; written = []; threads = λ i. idle }

quiet-IsOrderly : IsOrderly quiet
unfolding line
quiet-IsOrderly = record {
  asked = λ i msg f. absurd (ground (arith, f));
  holds = λ i rest f. absurd (ground (arith, f));
  free = λ c f. ([], refl, tt);
  busy = λ c i rest f. absurd (ground (arith, f));
}

IsSent-IsMessage : (m : Message) → IsSent m → IsMessage m
IsSent-IsMessage m (inl (cmd, e)) = (
  omega (arith, ap (λ (m : Message). m.topic) e),
  omega (arith, ap (λ (m : Message). length m.msg) e, length-twist_bytes cmd),
)
IsSent-IsMessage m (inr (t, e)) = (
  omega (arith, ap (λ (m : Message). m.topic) e),
  omega (arith, ap (λ (m : Message). length m.msg) e, length-timestamp_bytes t),
)

All-IsMessage : (ms : List Message) → All IsSent ms → All IsMessage ms
All-IsMessage [] h = tt
All-IsMessage (m ∷ ms) (h, hs) = (IsSent-IsMessage m h, All-IsMessage ms hs)

-- Whatever threads drive and send timestamps, and however their steps interleave: if every write under
-- the lock took all of its bytes, then, whenever the lock is free, the bytes on the line are whole
-- packets that a receiver reads as velocity commands and timestamps.
pub receive-written :
    (s : System)
    → Reach quiet s
    → s.cut ≡ false
    → s.mtx ≡ none
    → (ms : List Message) × (receive (length ms) s.written ≡ some ms) × All IsSent ms
receive-written s r c n =
    let (ms, e, h) = (Reach-IsOrderly r quiet-IsOrderly).free c n in
    (
      ms,
      ap (receive (length ms)) e ∙ receive-line (length ms) ms (omega arith) (All-IsMessage ms h),
      h,
    )
