-- ===== src/Driver/Live/Mirrors/Rounds.antt =====
-- A round of MBotDriver::spin on its objects, and on the answers that they gave.
use rob320_p.Base.{
  ℕ, zero, suc, ◌-◌, ltb_zero, ◌≡◌, List, [], ◌∷◌, ◌++◌, true, false, Option, some, length, ltb,
  if◌then◌else◌, refl, sym, ap, ◌∙◌, append-nil, le→leb, Option-cases, Bool-cases, inl, inr,
}
use rob320_p.Memory.{Outcome, fault, failed, done}
use rob320_p.Serialization.Deserialize.{deserialize_number}
use rob320_p.Messages.Twist2DStamped
use rob320_p.Messages.Twist2DStamped.{Twist2DStamped, stamped_message}
use rob320_p.Io
use rob320_p.Io.{Answer, bytes, interrupted, would_block, broken, Notif}
use rob320_p.Io.Interfaces.{Channel, Notification, MBotBase}
use rob320_p.Driver
use rob320_p.Driver.{stop, send_stop}
use rob320_p.Driver.Steps
use rob320_p.Driver.Live.{
  Exact, full, gave_up, hangs, leave, notif_ready, read_exact, obey, read_payload, read_size,
  read_message, round, brief,
}
use rob320_p.Driver.Live.Mirrors.{
  IsChannel, has_read, polled, waited, drove, answers, polls, GoesOn, goes_on, MirrorsExact,
  MirrorsRound, exact_before, round_before,
}

module _ {S : Type 0} (input : Channel S) (notif : Option (Notification S)) (mbot : MBotBase S)
    (honest : IsChannel input) where
  -- An answer of `read`, with what read_exact does after it.
  answer-Mirrors :
      (fuel n : ℕ) (dst : List ℕ) (s : S) (a : Answer)
      → (input.read (suc n) s).0 ≡ a
      → ((m : ℕ) (dst' : List ℕ) (s' : S)
          → MirrorsExact input notif mbot
              (Driver.read_exact m dst')
              s'
              (read_exact S input notif mbot fuel m dst' s'))
      → MirrorsExact input notif mbot
          (Driver.read_exact (suc n) dst)
          s
          (read_exact S input notif mbot (suc fuel) (suc n) dst s)
  unfolding read_exact Driver.read_exact Io.notif_ready
  answer-Mirrors fuel n dst s (bytes []) e ih =
      rw (e, read_exact) (has_read n (bytes []) ∷ [], (e, refl), refl, λ rest more. refl)
  answer-Mirrors fuel n dst s (bytes (b ∷ bs)) e ih =
      let m : ℕ = suc n - length (b ∷ bs) in
      let s1 : S = (input.read (suc n) s).1 in
      let step : GoesOn input notif mbot (Driver.read_exact (suc n) dst)
          (Driver.read_exact m (dst ++ (b ∷ bs))) s [] s1 =
        (
          has_read n (bytes (b ∷ bs)) ∷ [],
          (e, refl),
          refl,
          λ rest more.
              rw (Driver.read_exact, le→leb (length (b ∷ bs)) (suc n) (honest.short n s (b ∷ bs) e))
                refl,
        ) in
      rw (e, read_exact)
        (exact_before input notif mbot (Driver.read_exact (suc n) dst)
          (Driver.read_exact m (dst ++ (b ∷ bs))) s s1 _ step (ih m (dst ++ (b ∷ bs)) s1))
  answer-Mirrors fuel n dst s interrupted e ih =
      let s1 : S = (input.read (suc n) s).1 in
      rw (e, read_exact)
        (exact_before input notif mbot (Driver.read_exact (suc n) dst)
          (Driver.read_exact (suc n) dst) s s1 _
          (has_read n interrupted ∷ [], (e, refl), refl, λ rest more. refl) (ih (suc n) dst s1))
  answer-Mirrors fuel n dst s would_block e ih =
      let s1 : S = (input.read (suc n) s).1 in
      elim (Option-cases (notif_ready S input notif mbot notif s1)) [
        | inl f ↦ rw (e, read_exact, f) (has_read n would_block ∷ [], s1, (e, refl), refl, refl)
        | inr ((ready, s'), f) ↦ elim (Bool-cases ready) [
          | inl g ↦
              rw (e, read_exact, f, g)
                (
                  has_read n would_block ∷ polled true ∷ [],
                  (e, (s', f ∙ ap (λ r. some (r, s')) g, refl)),
                  refl,
                  λ rest more. refl,
                )
          | inr g ↦
              let s2 : S = (input.wait_for_readable brief s').1 in
              rw (e, read_exact, f, g)
                (exact_before input notif mbot (Driver.read_exact (suc n) dst)
                  (Driver.read_exact (suc n) dst) s s2 _
                  (
                    has_read n would_block ∷ polled false ∷ waited ∷ [],
                    (e, (s', f ∙ ap (λ r. some (r, s')) g, refl)),
                    refl,
                    λ rest more. refl,
                  )
                  (ih (suc n) dst s2))
        ]
      ]
  answer-Mirrors fuel n dst s broken e ih =
      rw (e, read_exact) (has_read n broken ∷ [], (e, refl), refl, λ rest more. refl)

  read_exact-Mirrors :
      (fuel n : ℕ) (dst : List ℕ) (s : S)
      → MirrorsExact input notif mbot
          (Driver.read_exact n dst)
          s
          (read_exact S input notif mbot fuel n dst s)
  unfolding read_exact Driver.read_exact
  read_exact-Mirrors zero zero dst s = ([], refl, refl, λ rest more. refl)
  read_exact-Mirrors (suc fuel) zero dst s = ([], refl, refl, λ rest more. refl)
  read_exact-Mirrors zero (suc n) dst s = ([], s, refl, refl, refl)
  read_exact-Mirrors (suc fuel) (suc n) dst s =
      answer-Mirrors fuel n dst s (input.read (suc n) s).0 refl
        (λ m dst' s'. read_exact-Mirrors fuel m dst' s')

  obey-Mirrors :
      (drives : List Twist2DStamped) (payload : List ℕ) (s : S) (r : Outcome Twist2DStamped)
      → Twist2DStamped.deserialize stamped_message.init
          (record { bytes = payload; size = length payload })
          0
        ≡ r
      → MirrorsRound input notif mbot
          (Driver.obey drives payload)
          drives
          s
          (obey S input notif mbot drives payload s)
  unfolding obey Driver.obey
  obey-Mirrors drives payload s fault e =
      rw (obey, e) (s, ([], refl, refl, λ rest more. rw (Driver.obey, e) refl))
  obey-Mirrors drives payload s (failed cmd off) e =
      rw (obey, e)
        ([], sym (append-nil drives), ([], refl, refl, λ rest more. rw (Driver.obey, e) refl))
  obey-Mirrors drives payload s (done cmd off) e =
      rw (obey, e)
        (cmd ∷ [], refl, (drove cmd ∷ [], refl, refl, λ rest more. rw (Driver.obey, e) refl))

  payload_read :
      (fuel n : ℕ) (s : S)
      → (if ltb 0 n then read_exact S input notif mbot fuel n [] s else full [] s)
        ≡ read_exact S input notif mbot fuel n [] s
  unfolding read_exact
  payload_read zero zero s = refl
  payload_read (suc fuel) zero s = refl
  payload_read fuel (suc n) s = rw (ltb_zero n) refl

  -- The stop at the end of a round that leaves.
  stop-Mirrors :
      (f : List Answer → Notif → Driver.Round) (drives : List Twist2DStamped) (s s' : S)
      → GoesOn input notif mbot f (λ x y. Driver.leave (drives ++ (stop ∷ []))) s [] s'
      → MirrorsRound input notif mbot f drives s
          (leave (drives ++ (stop ∷ [])) (mbot.drive stop s'))
  stop-Mirrors f drives s s' h = (
    stop ∷ [],
    refl,
    goes_on input notif mbot f (λ x y. Driver.leave (drives ++ (stop ∷ [])))
        (λ x y. Driver.leave (drives ++ (stop ∷ []))) s s' (mbot.drive stop s') [] (stop ∷ []) h
        (drove stop ∷ [], refl, refl, λ rest more. refl),
  )

  -- From the result of read_exact on.
  payload-Mirrors :
      (fuel n : ℕ) (drives : List Twist2DStamped) (s : S) (r : Exact S)
      → read_exact S input notif mbot fuel n [] s ≡ r
      → MirrorsExact input notif mbot (Driver.read_exact n []) s r
      → MirrorsRound input notif mbot
          (Driver.read_payload drives n)
          drives
          s
          (read_payload S input notif mbot fuel drives n s)
  unfolding read_payload Driver.read_payload send_stop
  payload-Mirrors fuel n drives s (full payload s') e (es, p, c, f) =
      rw (read_payload, payload_read fuel n s, e)
        (round_before input notif mbot (Driver.read_payload drives n) (Driver.obey drives payload)
          drives s s' _
          (
            es,
            p,
            c,
            λ rest more.
                rw
                  (
                    Driver.read_payload,
                    Steps.payload_read n (answers es ++ rest) (some (polls es ++ more)),
                    f rest more,
                  )
                  refl,
          )
          (obey-Mirrors drives payload s' _ refl))
  payload-Mirrors fuel n drives s (gave_up s') e (es, p, c, f) =
      rw (read_payload, payload_read fuel n s, e)
        (stop-Mirrors (Driver.read_payload drives n) drives s s' (
          es,
          p,
          c,
          λ rest more.
              rw
                (
                  Driver.read_payload,
                  Steps.payload_read n (answers es ++ rest) (some (polls es ++ more)),
                  f rest more,
                )
                refl,
        ))
  payload-Mirrors fuel n drives s hangs e (es, s', p, c, f) =
      rw (read_payload, payload_read fuel n s, e)
        (
          refl,
          (
            es,
            s',
            p,
            c,
            rw (Driver.read_payload, Steps.payload_read n (answers es) (some (polls es)), f) refl,
          ),
        )

  size-Mirrors :
      (fuel : ℕ) (drives : List Twist2DStamped) (size_buf : List ℕ) (s : S) (r : Outcome ℕ)
      → deserialize_number 4 0 (record { bytes = size_buf; size = 4 }) 0 ≡ r
      → MirrorsRound input notif mbot
          (Driver.read_size drives size_buf)
          drives
          s
          (read_size S input notif mbot fuel drives size_buf s)
  unfolding read_size Driver.read_size send_stop
  size-Mirrors fuel drives size_buf s fault e =
      rw (e, read_size) (s, ([], refl, refl, λ rest more. rw (e, Driver.read_size) refl))
  size-Mirrors fuel drives size_buf s (failed n off) e =
      rw (e, read_size)
        (stop-Mirrors (Driver.read_size drives size_buf) drives s s
          ([], refl, refl, λ rest more. rw (e, Driver.read_size) refl))
  size-Mirrors fuel drives size_buf s (done n off) e =
      rw (e, read_size)
        (round_before input notif mbot (Driver.read_size drives size_buf)
          (Driver.read_payload drives n) drives s s _
          ([], refl, refl, λ rest more. rw (e, Driver.read_size) refl)
          (payload-Mirrors fuel n drives s _ refl (read_exact-Mirrors fuel n [] s)))

  message-Mirrors :
      (fuel : ℕ) (drives : List Twist2DStamped) (s : S) (r : Exact S)
      → read_exact S input notif mbot fuel 4 [] s ≡ r
      → MirrorsExact input notif mbot (Driver.read_exact 4 []) s r
      → MirrorsRound input notif mbot
          (Driver.read_message drives)
          drives
          s
          (read_message S input notif mbot fuel drives s)
  unfolding read_message Driver.read_message send_stop
  message-Mirrors fuel drives s (full size_buf s') e (es, p, c, f) =
      rw (e, read_message)
        (round_before input notif mbot (Driver.read_message drives)
          (Driver.read_size drives size_buf) drives s s' _
          (es, p, c, λ rest more. rw (Driver.read_message, f rest more) refl)
          (size-Mirrors fuel drives size_buf s' _ refl))
  message-Mirrors fuel drives s (gave_up s') e (es, p, c, f) =
      rw (e, read_message)
        (stop-Mirrors (Driver.read_message drives) drives s s'
          (es, p, c, λ rest more. rw (Driver.read_message, f rest more) refl))
  message-Mirrors fuel drives s hangs e (es, s', p, c, f) =
      rw (e, read_message) (refl, (es, s', p, c, rw (Driver.read_message, f) refl))

  pub round-Mirrors :
      (fuel : ℕ) (drives : List Twist2DStamped) (s : S)
      → MirrorsRound input notif mbot
          (Driver.round drives)
          drives
          s
          (round S input notif mbot fuel drives s)
  unfolding round Driver.round send_stop Io.notif_ready Driver.read_message Driver.read_exact
  round-Mirrors fuel drives s = elim (Option-cases (notif_ready S input notif mbot notif s)) [
    | inl e ↦ rw (round, e) (refl, ([], s, refl, refl, refl))
    | inr ((ready, s'), e) ↦ elim (Bool-cases ready) [
      | inl f ↦
          rw (round, e, f)
            (stop-Mirrors (Driver.round drives) drives s s'
              (polled true ∷ [], (s', e ∙ ap (λ r. some (r, s')) f, refl), refl, λ rest more. refl))
      | inr f ↦
          rw (round, e, f)
            (round_before input notif mbot (Driver.round drives) (Driver.read_message drives) drives
              s s' _
              (polled false ∷ [], (s', e ∙ ap (λ r. some (r, s')) f, refl), refl, λ rest more. refl)
              (message-Mirrors fuel drives s' _ refl (read_exact-Mirrors fuel 4 [] s')))
    ]
  ]
