-- ===== src/Driver/Live/Mirrors/Safe.antt =====
-- Whole runs of MBotDriver::spin on its objects (src/mbot_driver/mbot_driver.cpp).
use rob320_p.Base.{
  ℕ, zero, suc, ◌≡◌, List, [], ◌++◌, true, Option, some, refl, ap, sym, ◌∙◌, append-nil,
  append_assoc, Bool,
}
use mathlib.Core.Path.{subst}
use rob320_p.Messages.Twist2DStamped.{Twist2DStamped, stamped_message}
use rob320_p.Io.{Answer, Notif}
use rob320_p.Io.Stream.{AreBytes}
use rob320_p.Io.Interfaces.{Channel, Notification, MBotBase}
use rob320_p.Driver
use rob320_p.Driver.{stop}
use rob320_p.Driver.Safety.{IsSound, EndsInStop, round-IsSound}
use rob320_p.Driver.Live.{
  Round, leave, again, stuck, crash, Spin, returned, hanging, faulted, unfinished, round, rounds,
  spin,
}
use rob320_p.Driver.Live.Mirrors.{
  IsChannel, Event, answers, polls, commands, answers-append, polls-append, commands-append,
  Happens, Happens-append, answers-AreBytes, MirrorsRound,
}
use rob320_p.Driver.Live.Mirrors.Stopped.{EndsStopped, StopsLast, rounds-StopsLast}
use rob320_p.Driver.Live.Mirrors.Rounds.{round-Mirrors}

-- A run as Driver has it, where a call that does not return is an input that does not come.
abbrev pub erase : {S : Type 0} → Spin S → Driver.Spin
erase (returned drives s) = Driver.returned drives
erase (hanging drives) = Driver.waiting drives
erase faulted = Driver.faulted
erase unfinished = Driver.unfinished

-- No fault, and a stop at the end.
abbrev IsHarmless : Driver.Spin → Type 0
IsHarmless (Driver.returned drives) = EndsInStop drives
IsHarmless (Driver.waiting drives) = Unit {0}
IsHarmless Driver.faulted = ⊥
IsHarmless Driver.unfinished = Unit {0}

round-IsHarmless :
    (fuel : ℕ) (r : Driver.Round) (drives : List Twist2DStamped) (input : List Answer)
    (notif : Notif)
    → Driver.round drives input notif ≡ r
    → (n : ℕ) → IsSound n r
    → ((drives : List Twist2DStamped) (input : List Answer) (notif : Notif)
        → AreBytes input
        → IsHarmless (Driver.spin fuel drives input notif))
    → IsHarmless (Driver.spin (suc fuel) drives input notif)
unfolding Driver.spin
round-IsHarmless fuel (Driver.leave ds) drives input notif e n h ih = rw (Driver.spin, e) h
round-IsHarmless fuel (Driver.again ds input' notif') drives input notif e n h ih =
    rw (Driver.spin, e) (ih ds input' notif' h.1)
round-IsHarmless fuel (Driver.pause ds) drives input notif e n h ih = rw (Driver.spin, e) tt
round-IsHarmless fuel Driver.crash drives input notif e n h ih = absurd h

spin-IsHarmless :
    (fuel : ℕ) (drives : List Twist2DStamped) (input : List Answer) (notif : Notif)
    → AreBytes input
    → IsHarmless (Driver.spin fuel drives input notif)
unfolding Driver.spin
spin-IsHarmless zero drives input notif h = tt
spin-IsHarmless (suc fuel) drives input notif h =
    round-IsHarmless fuel _ drives input notif refl _ (round-IsSound drives input notif h)
      (λ ds input' notif' b. spin-IsHarmless fuel ds input' notif' b)

module _ {S : Type 0} (input : Channel S) (notif : Option (Notification S))
    (mbot : MBotBase S) where
  joined :
      (r : Spin S)
      → IsHarmless (erase r)
      → StopsLast input notif mbot r
      → EndsStopped input notif mbot r
  joined (returned drives s) h k = (h, k)
  joined (hanging drives) h k = tt
  joined faulted h k = absurd h
  joined unfinished h k = tt

  -- The robot was given `cmds` behind `drives`, up to the last call at the state of the objects.
  abbrev Agrees : List Twist2DStamped → List Twist2DStamped → S → Spin S → Type 0
  Agrees drives cmds s (returned ds s') = (ds ≡ drives ++ cmds) × (s' ≡ s)
  Agrees drives cmds s (hanging ds) = ds ≡ drives ++ cmds
  Agrees drives cmds s faulted = Unit {0}
  Agrees drives cmds s unfinished = Unit {0}

  -- A run on the objects, and a run of Driver on the answers that they gave.
  abbrev pub Refines : ℕ → List Twist2DStamped → S → Spin S → Type 0
  Refines fuel drives s r =
      (es : List Event) × (s' : S) × Happens input notif mbot es s s'
      × Agrees drives (commands es) s' r
      × (Driver.spin fuel drives (answers es) (some (polls es)) ≡ erase r)

  Agrees-before :
      (drives ds cmds more : List Twist2DStamped) (s : S) (r : Spin S)
      → ds ≡ drives ++ cmds
      → Agrees ds more s r
      → Agrees drives (cmds ++ more) s r
  Agrees-before drives ds cmds more s (returned d q) e (f, same) =
      (f ∙ ap (λ x. x ++ more) e ∙ append_assoc drives cmds more, same)
  Agrees-before drives ds cmds more s (hanging d) e f =
      f ∙ ap (λ x. x ++ more) e ∙ append_assoc drives cmds more
  Agrees-before drives ds cmds more s faulted e f = tt
  Agrees-before drives ds cmds more s unfinished e f = tt

  ended :
      (drives : List Twist2DStamped) (es : List Event) (r : Driver.Round)
      → ((rest : List Answer) (more : List Bool)
          → Driver.round drives (answers es ++ rest) (some (polls es ++ more)) ≡ r)
      → Driver.round drives (answers es) (some (polls es)) ≡ r
  ended drives es r f =
      ap (λ x. Driver.round drives x (some (polls es))) (sym (append-nil (answers es)))
      ∙ ap (λ x. Driver.round drives (answers es ++ []) (some x)) (sym (append-nil (polls es)))
      ∙ f [] []

  module _ (honest : IsChannel input) where
    round-Refines :
        (fuel reads : ℕ) (r : Round S) (drives : List Twist2DStamped) (s : S)
        → round S input notif mbot reads drives s ≡ r
        → MirrorsRound input notif mbot (Driver.round drives) drives s r
        → ((ds : List Twist2DStamped) (s : S)
            → Refines fuel ds s (rounds S input notif mbot fuel reads ds s))
        → Refines (suc fuel) drives s (rounds S input notif mbot (suc fuel) reads drives s)
    unfolding rounds Driver.spin
    round-Refines fuel reads (leave ds s') drives s e (cmds, d, (es, p, c, f)) ih =
        rw (rounds, e)
          (
            es,
            s',
            p,
            (d ∙ ap (◌++◌ drives) (sym c), refl),
            rw (Driver.spin, ended drives es (Driver.leave ds) f) refl,
          )
    round-Refines fuel reads (again ds s') drives s e (cmds, d, (es, p, c, f)) ih =
        let (es', q, p', agrees, g) = ih ds s' in
        rw (rounds, e)
          (
            es ++ es',
            q,
            Happens-append input notif mbot es es' s s' q p p',
            subst (λ x. Agrees drives x q (rounds S input notif mbot fuel reads ds s'))
                (sym (commands-append es es' ∙ ap (λ x. x ++ commands es') c))
                (Agrees-before drives ds cmds (commands es') q _ d agrees),
            ap (λ x. Driver.spin (suc fuel) drives x (some (polls (es ++ es'))))
                  (answers-append es es')
                ∙ ap (λ x. Driver.spin (suc fuel) drives (answers es ++ answers es') (some x))
                    (polls-append es es')
                ∙ rw (Driver.spin, f (answers es') (polls es')) g,
          )
    round-Refines fuel reads (stuck ds) drives s e (d, (es, s', p, c, f)) ih =
        rw (rounds, e)
          (
            es,
            s',
            p,
            d ∙ sym (append-nil drives) ∙ ap (◌++◌ drives) (sym c),
            rw (Driver.spin, f) refl,
          )
    round-Refines fuel reads crash drives s e (s', (es, p, c, f)) ih =
        rw (rounds, e) (es, s', p, tt, rw (Driver.spin, ended drives es Driver.crash f) refl)

    rounds-Refines :
        (fuel reads : ℕ) (drives : List Twist2DStamped) (s : S)
        → Refines fuel drives s (rounds S input notif mbot fuel reads drives s)
    unfolding rounds Driver.spin
    rounds-Refines zero reads drives s = ([], s, refl, tt, refl)
    rounds-Refines (suc fuel) reads drives s =
        round-Refines fuel reads _ drives s refl
          (round-Mirrors input notif mbot honest reads drives s)
          (λ ds s'. rounds-Refines fuel reads ds s')

    -- Over any objects whose reads store bytes and no more than they were asked for, with any fuel:
    -- there are calls (reads, polls of the notification, waits, commands to the robot) that lead the
    -- objects, from their state behind set_nonblocking, with these answers to the state in which spin
    -- returns; the commands that spin has given are those of these calls, in order; and the run of
    -- Driver on the answers that the objects gave in these calls gives the same commands and ends the
    -- same way, where a call that does not return, or a read_exact that has used up its fuel, is an
    -- input that does not come.
    pub spin-Refines :
        (fuel reads : ℕ) (s : S)
        → Refines fuel [] (input.set_nonblocking true s) (spin S input notif mbot fuel reads s)
    unfolding spin
    spin-Refines fuel reads s = rounds-Refines fuel reads [] (input.set_nonblocking true s)

    -- If a read of the input stores bytes, no more than it was asked for.
    pub spin-EndsStopped :
        (fuel reads : ℕ) (s : S)
        → EndsStopped input notif mbot (spin S input notif mbot fuel reads s)
    unfolding spin
    spin-EndsStopped fuel reads s =
        let start : S = input.set_nonblocking true s in
        let (es, s', p, _, e) = spin-Refines fuel reads s in
        joined (spin S input notif mbot fuel reads s)
          (subst IsHarmless e (
            spin-IsHarmless fuel [] (answers es) (some (polls es))
              (answers-AreBytes input notif mbot es start s' honest p)))
          (rounds-StopsLast input notif mbot fuel reads [] start)
