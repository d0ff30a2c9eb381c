-- ===== src/Driver/Live/Mirrors.antt =====
-- A run of MBotDriver::spin on its objects, and the run of Driver on the answers that the objects gave.
pub mod Rounds
pub mod Stopped
pub mod Safe
use rob320_p.Base.{
  ℕ, zero, suc, ◌+◌, ◌-◌, ◌≡◌, ◌≤◌, List, [], ◌∷◌, ◌++◌, Bool, true, false, Option, none, some, All,
  IsByte, length, leb, ltb, if◌then◌else◌, refl, arith, ap, sym, ◌∙◌, append_assoc, append-nil,
  le→leb, Option-cases, Bool-cases, inl, inr,
}
use mathlib.Core.Path.{subst}
use rob320_p.Memory.{Outcome, fault, failed, done}
use rob320_p.Serialization.Deserialize.{deserialize_number}
use rob320_p.Messages.Twist2DStamped
use rob320_p.Messages.Twist2DStamped.{Twist2DStamped, stamped_message}
use rob320_p.Io.{Answer, bytes, interrupted, would_block, broken, Notif}
use rob320_p.Io.Stream.{AreBytes}
use rob320_p.Io.Interfaces.{Channel, Notification, MBotBase}
use rob320_p.Driver
use rob320_p.Driver.{stop}
use rob320_p.Driver.Live.{
  Exact, full, gave_up, hangs, Round, leave, again, stuck, crash, Spin, returned, hanging, faulted,
  unfinished, notif_ready, read_exact, stop_and_leave, obey, read_payload, read_size, read_message,
  round, rounds, spin, brief,
}

-- A read stores no more than it was asked for, and bytes.
pub record IsChannel {S : Type 0} (input : Channel S) : Type 0 where
  pub short :
      (n : ℕ) (s : S) (bs : List ℕ) → (input.read (suc n) s).0 ≡ bytes bs → length bs ≤ suc n
  pub are_bytes :
      (n : ℕ) (s : S) (bs : List ℕ) → (input.read (suc n) s).0 ≡ bytes bs → All IsByte bs

-- What a run does to its objects, call after call.
pub data Event : Type 0 where
  has_read : ℕ → Answer → Event
  polled : Bool → Event
  waited : Event
  drove : Twist2DStamped → Event

abbrev pub answers : List Event → List Answer
answers [] = []
answers (has_read n a ∷ es) = a ∷ answers es
answers (polled b ∷ es) = answers es
answers (waited ∷ es) = answers es
answers (drove cmd ∷ es) = answers es

abbrev pub polls : List Event → List Bool
polls [] = []
polls (has_read n a ∷ es) = polls es
polls (polled b ∷ es) = b ∷ polls es
polls (waited ∷ es) = polls es
polls (drove cmd ∷ es) = polls es

abbrev pub commands : List Event → List Twist2DStamped
commands [] = []
commands (has_read n a ∷ es) = commands es
commands (polled b ∷ es) = commands es
commands (waited ∷ es) = commands es
commands (drove cmd ∷ es) = cmd ∷ commands es

pub answers-append : (a b : List Event) → answers (a ++ b) ≡ answers a ++ answers b
answers-append [] b = refl
answers-append (has_read n x ∷ a) b = ap (◌∷◌ x) (answers-append a b)
answers-append (polled x ∷ a) b = answers-append a b
answers-append (waited ∷ a) b = answers-append a b
answers-append (drove x ∷ a) b = answers-append a b

pub polls-append : (a b : List Event) → polls (a ++ b) ≡ polls a ++ polls b
polls-append [] b = refl
polls-append (has_read n x ∷ a) b = polls-append a b
polls-append (polled x ∷ a) b = ap (◌∷◌ x) (polls-append a b)
polls-append (waited ∷ a) b = polls-append a b
polls-append (drove x ∷ a) b = polls-append a b

pub commands-append : (a b : List Event) → commands (a ++ b) ≡ commands a ++ commands b
commands-append [] b = refl
commands-append (has_read n x ∷ a) b = commands-append a b
commands-append (polled x ∷ a) b = commands-append a b
commands-append (waited ∷ a) b = commands-append a b
commands-append (drove x ∷ a) b = ap (◌∷◌ x) (commands-append a b)

module _ {S : Type 0} (input : Channel S) (notif : Option (Notification S))
    (mbot : MBotBase S) where
  -- These calls, with these answers, lead from a state of the objects to another.
  abbrev pub Happens : List Event → S → S → Type 0
  Happens [] s s' = s ≡ s'
  Happens (has_read n a ∷ es) s s' =
      ((input.read (suc n) s).0 ≡ a) × Happens es (input.read (suc n) s).1 s'
  Happens (polled b ∷ es) s s' =
      (s1 : S) × (notif_ready S input notif mbot notif s ≡ some (b, s1)) × Happens es s1 s'
  Happens (waited ∷ es) s s' = Happens es (input.wait_for_readable brief s).1 s'
  Happens (drove cmd ∷ es) s s' = Happens es (mbot.drive cmd s) s'

  pub Happens-append :
      (a b : List Event) (s s' s'' : S) → Happens a s s' → Happens b s' s'' → Happens (a ++ b) s s''
  Happens-append [] b s s' s'' h k = subst (λ s. Happens b s s'') (sym h) k
  Happens-append (has_read n x ∷ a) b s s' s'' (e, h) k = (e, Happens-append a b _ s' s'' h k)
  Happens-append (polled x ∷ a) b s s' s'' (s1, e, h) k = (s1, e, Happens-append a b s1 s' s'' h k)
  Happens-append (waited ∷ a) b s s' s'' h k = Happens-append a b _ s' s'' h k
  Happens-append (drove x ∷ a) b s s' s'' h k = Happens-append a b _ s' s'' h k

  read-AreBytes :
      (n : ℕ) (a : Answer) (es : List Event) (s : S)
      → IsChannel input
      → (input.read (suc n) s).0 ≡ a
      → AreBytes (answers es)
      → AreBytes (a ∷ answers es)
  read-AreBytes n (bytes bs) es s honest e h = (honest.are_bytes n s bs e, h)
  read-AreBytes n interrupted es s honest e h = h
  read-AreBytes n would_block es s honest e h = h
  read-AreBytes n broken es s honest e h = h

  pub answers-AreBytes :
      (es : List Event) (s s' : S) → IsChannel input → Happens es s s' → AreBytes (answers es)
  answers-AreBytes [] s s' honest h = tt
  answers-AreBytes (has_read n a ∷ es) s s' honest (e, h) =
      read-AreBytes n a es s honest e (answers-AreBytes es _ s' honest h)
  answers-AreBytes (polled b ∷ es) s s' honest (s1, e, h) = answers-AreBytes es s1 s' honest h
  answers-AreBytes (waited ∷ es) s s' honest h = answers-AreBytes es _ s' honest h
  answers-AreBytes (drove cmd ∷ es) s s' honest h = answers-AreBytes es _ s' honest h

  module _ {R : Type 0} where
    -- The objects go from `s` to `s'` and the robot is given `cmds`; on the answers that they give, `f` goes on as
    -- `g`.
    abbrev pub GoesOn : (f g : List Answer → Notif → R) → S → List Twist2DStamped → S → Type 0
    GoesOn f g s cmds s' =
        (es : List Event) × Happens es s s'
        × (commands es ≡ cmds)
        × ((rest : List Answer) (more : List Bool)
            → f (answers es ++ rest) (some (polls es ++ more)) ≡ g rest (some more))

    -- On these answers and no more, `f` comes to `r`.
    abbrev pub Halts : (List Answer → Notif → R) → R → S → List Twist2DStamped → Type 0
    Halts f r s cmds =
        (es : List Event) × (s' : S) × Happens es s s'
        × (commands es ≡ cmds)
        × (f (answers es) (some (polls es)) ≡ r)

    pub goes_on :
        (f g h : List Answer → Notif → R) (s s' s'' : S) (a b : List Twist2DStamped)
        → GoesOn f g s a s'
        → GoesOn g h s' b s''
        → GoesOn f h s (a ++ b) s''
    goes_on f g h s s' s'' a b (t, p, c, e) (t', p', c', e') = (
      t ++ t',
      Happens-append t t' s s' s'' p p',
      commands-append t t' ∙ ap (λ x. x ++ commands t') c ∙ ap (◌++◌ a) c',
      λ rest more.
          ap (λ x. f (x ++ rest) (some (polls (t ++ t') ++ more))) (answers-append t t')
          ∙ ap (λ x. f ((answers t ++ answers t') ++ rest) (some (x ++ more))) (polls-append t t')
          ∙ ap (λ x. f x (some ((polls t ++ polls t') ++ more)))
              (append_assoc (answers t) (answers t') rest)
          ∙ ap (λ x. f (answers t ++ (answers t' ++ rest)) (some x))
              (append_assoc (polls t) (polls t') more)
          ∙ e (answers t' ++ rest) (polls t' ++ more)
          ∙ e' rest more,
    )

    pub halts :
        (f g : List Answer → Notif → R) (r : R) (s s' : S) (a b : List Twist2DStamped)
        → GoesOn f g s a s'
        → Halts g r s' b
        → Halts f r s (a ++ b)
    halts f g r s s' a b (t, p, c, e) (t', s'', p', c', e') = (
      t ++ t',
      s'',
      Happens-append t t' s s' s'' p p',
      commands-append t t' ∙ ap (λ x. x ++ commands t') c ∙ ap (◌++◌ a) c',
      ap (λ x. f x (some (polls (t ++ t')))) (answers-append t t')
          ∙ ap (λ x. f (answers t ++ answers t') (some x)) (polls-append t t')
          ∙ e (answers t') (polls t')
          ∙ e',
    )

  abbrev pub MirrorsExact : (List Answer → Notif → Driver.Exact) → S → Exact S → Type 0
  MirrorsExact f s (full dst s') = GoesOn f (Driver.full dst) s [] s'
  MirrorsExact f s (gave_up s') = GoesOn f Driver.gave_up s [] s'
  MirrorsExact f s hangs = Halts f Driver.waits s []

  -- The commands behind `drives` are those that the robot was given.
  abbrev pub MirrorsRound :
      (List Answer → Notif → Driver.Round) → List Twist2DStamped → S → Round S → Type 0
  MirrorsRound f drives s (leave ds s') =
      (cmds : List Twist2DStamped) × (ds ≡ drives ++ cmds)
      × GoesOn f (λ input notif. Driver.leave ds) s cmds s'
  MirrorsRound f drives s (again ds s') =
      (cmds : List Twist2DStamped) × (ds ≡ drives ++ cmds) × GoesOn f (Driver.again ds) s cmds s'
  MirrorsRound f drives s (stuck ds) = (ds ≡ drives) × Halts f (Driver.pause ds) s []
  MirrorsRound f drives s crash = (s' : S) × GoesOn f (λ input notif. Driver.crash) s [] s'

  pub exact_before :
      (f g : List Answer → Notif → Driver.Exact) (s s' : S) (r : Exact S)
      → GoesOn f g s [] s'
      → MirrorsExact g s' r
      → MirrorsExact f s r
  exact_before f g s s' (full dst q) h k = goes_on f g (Driver.full dst) s s' q [] [] h k
  exact_before f g s s' (gave_up q) h k = goes_on f g Driver.gave_up s s' q [] [] h k
  exact_before f g s s' hangs h k = halts f g Driver.waits s s' [] [] h k

  pub round_before :
      (f g : List Answer → Notif → Driver.Round) (drives : List Twist2DStamped) (s s' : S)
      (r : Round S)
      → GoesOn f g s [] s'
      → MirrorsRound g drives s' r
      → MirrorsRound f drives s r
  round_before f g drives s s' (leave ds q) h (c, e, k) =
      (c, e, goes_on f g (λ input notif. Driver.leave ds) s s' q [] c h k)
  round_before f g drives s s' (again ds q) h (c, e, k) =
      (c, e, goes_on f g (Driver.again ds) s s' q [] c h k)
  round_before f g drives s s' (stuck ds) h (e, k) = (e, halts f g (Driver.pause ds) s s' [] [] h k)
  round_before f g drives s s' crash h (q, k) =
      (q, goes_on f g (λ input notif. Driver.crash) s s' q [] [] h k)
