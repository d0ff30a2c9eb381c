-- ===== src/Driver/Live/Prompt.antt =====
-- How soon MBotDriver::spin (src/mbot_driver/mbot_driver.cpp) ends once its notification is ready.
use rob320_p.Base.{
  ℕ, zero, suc, ◌+◌, ◌-◌, ◌≡◌, ◌≢◌, ◌≤◌, ◌<◌, ◌^◌, ◌⊎◌, List, [], ◌∷◌, ◌++◌, true, false, Option,
  some, All, IsByte, length, length-append, ltb, ltb_zero, if◌then◌else◌, refl, sym, arith, ap,
  of_bytes, inl, inr,
}
use rob320_p.Base.{All-append}
use mathlib.Core.Path.{subst}
use rob320_p.Memory.{Outcome, fault, failed, done}
use rob320_p.Memory.Readers.{Within}
use rob320_p.Messages.Twist2DStamped
use rob320_p.Messages.Twist2DStamped.{Twist2DStamped, stamped_message, stamped-IsCodec}
use rob320_p.Io.{Answer, bytes, interrupted, would_block, broken}
use rob320_p.Io.Interfaces.{Channel, Notification, MBotBase}
use rob320_p.Driver.{stop}
use rob320_p.Driver.Steps.{own_size, size_prefix, prefix-lt}
use rob320_p.Driver.Live.{
  Exact, full, gave_up, hangs, Round, leave, again, stuck, crash, Spin, returned, notif_ready,
  read_exact, obey, read_payload, read_size, read_message, round, rounds, rounds_polled,
}
use rob320_p.Driver.Live.Mirrors.{IsChannel}

-- In the states of `P` the notification is ready and no signal interrupts a read, and reading and driving stay
-- there.
pub record IsRaised {S : Type 0} (input : Channel S) (notif : Option (Notification S))
    (mbot : MBotBase S) (P : S → Type 0) : Type 0 where
  pub ready : (s : S) → P s → (s' : S) × (notif_ready S input notif mbot notif s ≡ some (true, s'))
  pub read_raised : (n : ℕ) (s : S) → P s → P (input.read (suc n) s).1
  pub goes_on : (n : ℕ) (s : S) → P s → (input.read (suc n) s).0 ≢ interrupted
  pub drive_raised : (cmd : Twist2DStamped) (s : S) → P s → P (mbot.drive cmd s)

module _ {S : Type 0} (input : Channel S) (notif : Option (Notification S)) (mbot : MBotBase S)
    (honest : IsChannel input) (P : S → Type 0) (raised : IsRaised input notif mbot P) where
  abbrev Ended : ℕ → Exact S → Type 0
  Ended n (full dst s) = P s × (length dst ≡ n) × All IsByte dst
  Ended n (gave_up s) = Unit {0}
  Ended n hangs = ⊥

  answer-Ended :
      (fuel n : ℕ) (dst : List ℕ) (s : S) (a : Answer)
      → (input.read (suc n) s).0 ≡ a
      → P s
      → All IsByte dst
      → ((m : ℕ) (dst' : List ℕ) (s' : S)
          → m ≤ n
          → P s'
          → All IsByte dst'
          → Ended (m + length dst') (read_exact S input notif mbot fuel m dst' s'))
      → Ended (suc n + length dst) (read_exact S input notif mbot (suc fuel) (suc n) dst s)
  unfolding read_exact
  answer-Ended fuel n dst s (bytes []) e h b ih = rw (e, read_exact) tt
  answer-Ended fuel n dst s (bytes (c ∷ cs)) e h b ih =
      let m : ℕ = suc n - length (c ∷ cs) in
      let short = honest.short n s (c ∷ cs) e in
      let same : m + length (dst ++ (c ∷ cs)) ≡ suc n + length dst =
        omega (arith, length-append dst (c ∷ cs), short) in
      rw (e, read_exact)
        (subst
          (λ k.
            Ended k
              (read_exact S input notif mbot fuel m (dst ++ (c ∷ cs)) (input.read (suc n) s).1))
          same
          (ih m (dst ++ (c ∷ cs)) (input.read (suc n) s).1 (omega arith) (raised.read_raised n s h)
            (All-append IsByte dst (c ∷ cs) b (honest.are_bytes n s (c ∷ cs) e))))
  answer-Ended fuel n dst s interrupted e h b ih = absurd (raised.goes_on n s h e)
  answer-Ended fuel n dst s would_block e h b ih =
      let (s', f) = raised.ready (input.read (suc n) s).1 (raised.read_raised n s h) in
      rw (e, read_exact, f) tt
  answer-Ended fuel n dst s broken e h b ih = rw (e, read_exact) tt

  read_exact-Ended :
      (fuel n : ℕ) (dst : List ℕ) (s : S)
      → n ≤ fuel
      → P s
      → All IsByte dst
      → Ended (n + length dst) (read_exact S input notif mbot fuel n dst s)
  unfolding read_exact
  read_exact-Ended zero zero dst s l h b = (h, omega arith, b)
  read_exact-Ended (suc fuel) zero dst s l h b = (h, omega arith, b)
  read_exact-Ended zero (suc n) dst s l h b = absurd (omega (arith, l))
  read_exact-Ended (suc fuel) (suc n) dst s l h b =
      answer-Ended fuel n dst s (input.read (suc n) s).0 refl h b
        (λ m dst' s' less h' b'. read_exact-Ended fuel m dst' s' (omega (arith, l, less)) h' b')

  -- A round leaves, or has given the robot one command at most.
  abbrev Prompt : List Twist2DStamped → Round S → Type 0
  Prompt drives (leave ds s) = ds ≡ drives ++ (stop ∷ [])
  Prompt drives (again ds s) =
      P s × ((ds ≡ drives) ⊎ ((cmd : Twist2DStamped) × (ds ≡ drives ++ (cmd ∷ []))))
  Prompt drives (stuck ds) = ⊥
  Prompt drives crash = ⊥

  obey-Prompt :
      (drives : List Twist2DStamped) (payload : List ℕ) (s : S) (k : ℕ) (r : Outcome Twist2DStamped)
      → Twist2DStamped.deserialize stamped_message.init
          (record { bytes = payload; size = length payload })
          0
        ≡ r
      → Within 0 k r
      → P s
      → Prompt drives (obey S input notif mbot drives payload s)
  unfolding obey
  obey-Prompt drives payload s k fault e w h = absurd w
  obey-Prompt drives payload s k (failed cmd off) e w h = rw (obey, e) (h, inl refl)
  obey-Prompt drives payload s k (done cmd off) e w h =
      rw (obey, e) (raised.drive_raised cmd s h, inr (cmd, refl))

  payload-Prompt :
      (fuel n : ℕ) (drives : List Twist2DStamped) (s : S) (r : Exact S)
      → (if ltb 0 n then read_exact S input notif mbot fuel n [] s else full [] s) ≡ r
      → n < 2 ^ 32
      → Ended (n + 0) r
      → Prompt drives (read_payload S input notif mbot fuel drives n s)
  unfolding read_payload
  payload-Prompt fuel n drives s (full payload s') e l (h, len, b) =
      rw (read_payload, e)
        (obey-Prompt drives payload s' (length payload) _ refl
          ((stamped-IsCodec.deserialize-IsBounded stamped_message.init).within
            (record { bytes = payload; size = length payload }) 0
            (own_size payload (length payload) b refl (omega (arith, l, len))) (omega arith))
          h)
  payload-Prompt fuel n drives s (gave_up s') e l h = rw (read_payload, e) refl
  payload-Prompt fuel n drives s hangs e l h = absurd h

  payload-Ended :
      (fuel n : ℕ) (s : S)
      → n ≤ fuel
      → P s
      → Ended (n + 0) (if ltb 0 n then read_exact S input notif mbot fuel n [] s else full [] s)
  unfolding read_exact
  payload-Ended fuel zero s l h = (h, refl, tt)
  payload-Ended fuel (suc n) s l h = rw (ltb_zero n) (read_exact-Ended fuel (suc n) [] s l h tt)

  message-Prompt :
      (fuel : ℕ) (drives : List Twist2DStamped) (s : S) (r : Exact S)
      → read_exact S input notif mbot fuel 4 [] s ≡ r
      → 2 ^ 32 ≤ fuel
      → Ended 4 r
      → Prompt drives (read_message S input notif mbot fuel drives s)
  unfolding read_message read_size
  message-Prompt fuel drives s (full buf s') e l (h, len, b) =
      rw (e, read_message, size_prefix buf len b, read_size)
        (payload-Prompt fuel (of_bytes buf) drives s' _ refl (prefix-lt buf len b)
          (payload-Ended fuel (of_bytes buf) s' (omega (arith, l, prefix-lt buf len b)) h))
  message-Prompt fuel drives s (gave_up s') e l h = rw (e, read_message) refl
  message-Prompt fuel drives s hangs e l h = absurd h

  -- What the robot was given after `drives`: a stop, or one command and a stop.
  abbrev pub EndsSoon : List Twist2DStamped → Spin S → Type 0
  EndsSoon drives r =
      (s : S) × ((r ≡ returned (drives ++ (stop ∷ [])) s)
        ⊎ ((cmd : Twist2DStamped) × (r ≡ returned ((drives ++ (cmd ∷ [])) ++ (stop ∷ [])) s)))

  next-EndsSoon :
      (fuel reads : ℕ) (drives : List Twist2DStamped) (s : S) (r : Round S)
      → read_message S input notif mbot reads drives s ≡ r
      → Prompt drives r
      → EndsSoon drives (rounds_polled S input notif mbot (suc fuel) reads drives s)
  unfolding rounds_polled rounds round
  next-EndsSoon fuel reads drives s (leave ds s') e h =
      (s', inl (rw (rounds_polled, e) (ap (λ d. returned d s') h)))
  next-EndsSoon fuel reads drives s (again ds s') e (h, inl f) =
      let (s'', g) = raised.ready s' h in
      (
        mbot.drive stop s'',
        inl (
            rw (rounds_polled, e, rounds, round, g)
              (ap (λ d. returned (d ++ (stop ∷ [])) (mbot.drive stop s'')) f)),
      )
  next-EndsSoon fuel reads drives s (again ds s') e (h, inr (cmd, f)) =
      let (s'', g) = raised.ready s' h in
      (
        mbot.drive stop s'',
        inr (
          cmd,
          rw (rounds_polled, e, rounds, round, g)
              (ap (λ d. returned (d ++ (stop ∷ [])) (mbot.drive stop s'')) f),
        ),
      )
  next-EndsSoon fuel reads drives s (stuck ds) e h = absurd h
  next-EndsSoon fuel reads drives s crash e h = absurd h

  pub polled-EndsSoon :
      (fuel reads : ℕ) (drives : List Twist2DStamped) (s : S)
      → 2 ^ 32 ≤ reads
      → P s
      → EndsSoon drives (rounds_polled S input notif mbot (suc fuel) reads drives s)
  polled-EndsSoon fuel reads drives s l h = next-EndsSoon fuel reads drives s _ refl (
      message-Prompt reads drives s _ refl l
        (read_exact-Ended reads 4 [] s (omega (arith, l)) h tt))

  rounds_of :
      (fuel reads : ℕ) (drives : List Twist2DStamped) (s s' : S)
      → notif_ready S input notif mbot notif s ≡ some (false, s')
      → rounds S input notif mbot (suc fuel) reads drives s
        ≡ rounds_polled S input notif mbot fuel reads drives s'
  unfolding rounds round rounds_polled
  rounds_of fuel reads drives s s' e = rw (rounds, round, e) refl

  -- If the notification becomes ready just after a round has polled it, and stays ready until it is
  -- polled again, and no read is interrupted, and each read_exact may read 2 ^ 32 times, then spin
  -- returns within this round and the next, and has given the robot a stop, or one command and a stop.
  pub rounds-EndsSoon :
      (fuel reads : ℕ) (drives : List Twist2DStamped) (s s' : S)
      → 2 ^ 32 ≤ reads
      → notif_ready S input notif mbot notif s ≡ some (false, s')
      → P s'
      → EndsSoon drives (rounds S input notif mbot (suc (suc fuel)) reads drives s)
  rounds-EndsSoon fuel reads drives s s' l e h =
      subst (EndsSoon drives) (sym (rounds_of (suc fuel) reads drives s s' e))
        (polled-EndsSoon fuel reads drives s' l h)
