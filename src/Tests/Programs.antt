-- ===== src/Tests/Programs.antt =====
-- The loops of src/mbot_driver and src/teleop_keyboard on small inputs.
use rob320_p.Base.{
  ℕ, ◌+◌, ◌%◌, ◌^◌, ◌<◌, ◌≡◌, List, [], ◌∷◌, ◌++◌, none, some, true, false, refl, inl, arith,
  length, concat, to_bytes, append-nil, ◌⊎◌,
}
use rob320_p.Base.Int.{pos}
use rob320_p.Io.{Answer, bytes, interrupted, would_block}
use rob320_p.Io.Stream
use rob320_p.Io.Stream.{carried}
use rob320_p.Driver
use rob320_p.Driver.{stop, read_exact}
use rob320_p.Driver.Safety.{IsSafe, spin-IsSafe}
use rob320_p.Driver.Frames.{frame, accept, spin_frames}
use rob320_p.Messages.Twist2DStamped.{Twist2DStamped}
use rob320_p.Teleop.Key.{Doubles, Speeds, to_upper, velocity}
use rob320_p.Teleop.Output.{Wrote, took}
use rob320_p.Teleop.Loop
use rob320_p.Teleop.Loop.{Event, idle, key, closed}
use rob320_p.Teleop.Sent.{frames, keyed, status, spin-keyed}
use rob320_p.Teleop.Notified.{spin-notified}
use rob320_p.Pipeline.{output, spin-commands, spin-output}

-- A frame of one byte, cut in two, with an interrupt and a wait between, and then a broken frame.
abbrev cut_frame : List Answer
cut_frame =
    bytes (1 ∷ 0 ∷ [])
    ∷ interrupted
    ∷ bytes (0 ∷ 0 ∷ 7 ∷ [])
    ∷ would_block
    ∷ bytes (9 ∷ 9 ∷ [])
    ∷ bytes []
    ∷ []

spin-IsSafe_example : IsSafe (Driver.spin 10 [] cut_frame (some (false ∷ true ∷ [])))
spin-IsSafe_example =
    spin-IsSafe 10 [] cut_frame (some (false ∷ true ∷ []))
      (
        (omega arith, (omega arith, tt)),
        (
          (omega arith, (omega arith, (omega arith, tt))),
          ((omega arith, (omega arith, tt)), (tt, tt)),
        ),
      )
      (omega arith)

cut_frame-carried : carried cut_frame ≡ concat frame ((7 ∷ []) ∷ []) ++ (9 ∷ 9 ∷ [])
unfolding to_bytes
cut_frame-carried = refl

spin_frames_example :
    Driver.spin 2 [] cut_frame none
    ≡ Driver.returned ([] ++ (concat accept ((7 ∷ []) ∷ []) ++ (stop ∷ [])))
spin_frames_example =
    spin_frames 2 [] ((7 ∷ []) ∷ []) (9 ∷ 9 ∷ []) cut_frame none (omega arith)
      ((omega arith, (omega arith, tt)), tt) (inl (omega arith)) tt cut_frame-carried refl

-- Doubles that are their own bit patterns.
abbrev pub patterns : Doubles
patterns = record {
  Double = ℕ;
  nought = 0;
  negate = λ x. x + 2 ^ 31;
  to_float = λ x. x % 2 ^ 32;
  to_float-lt = λ x. omega arith;
}

abbrev some_speeds : Speeds patterns
some_speeds = record { linear = 3; angular = 5 }

abbrev some_events : List Event
some_events =
    key b'w' (record { tp = pos 1_000_000_005 })
    ∷ idle
    ∷ key b'x' (record { tp = pos 7 })
    ∷ closed
    ∷ []

abbrev short_writes : List Wrote
short_writes = took 3 ∷ Wrote.interrupted ∷ took 2 ∷ []

spin-keyed_example :
    Loop.spin patterns some_speeds some_events 0 [] short_writes none
    ≡ status true ([] ++ frames (keyed patterns some_speeds some_events 0))
spin-keyed_example =
    spin-keyed patterns some_speeds some_events 0 [] short_writes none (omega arith) tt tt

spin-notified_example :
    (Loop.spin patterns some_speeds some_events 0 [] short_writes (some (true ∷ []))
      ≡ Loop.returned [])
    ⊎ (Loop.spin patterns some_speeds some_events 0 [] short_writes (some (true ∷ []))
        ≡ Loop.waiting [])
spin-notified_example = spin-notified patterns some_speeds some_events 0 [] short_writes []

abbrev pub piped : List ℕ → List Answer
piped bs = bytes bs ∷ bytes [] ∷ []

pub carried-piped : (bs : List ℕ) → carried (piped bs) ≡ bs
carried-piped [] = refl
carried-piped (b ∷ bs) = append-nil (b ∷ bs)

pub ends-piped : (bs : List ℕ) → Stream.ends (piped bs) ≡ true
ends-piped [] = refl
ends-piped (b ∷ bs) = refl

two_keys : length (keyed patterns some_speeds some_events 0) < 5
unfolding keyed velocity to_upper
two_keys = omega arith

abbrev one_stop : List Twist2DStamped
one_stop = stop ∷ []

spin-commands_example :
    Driver.spin 2 [] (piped (frames one_stop ++ (9 ∷ []))) none
    ≡ Driver.returned (one_stop ++ (stop ∷ []))
spin-commands_example =
    spin-commands 2 one_stop (9 ∷ []) (piped (frames one_stop ++ (9 ∷ []))) none (omega arith)
      (
        (
          (
            (omega arith, (omega arith, omega arith), omega arith),
            (omega arith, omega arith, omega arith),
          ),
          tt,
        ),
        tt,
      )
      (inl (omega arith)) tt (carried-piped _) (ends-piped _)

abbrev sent_bytes : List ℕ
sent_bytes = output (Loop.spin patterns some_speeds some_events 0 [] short_writes none)

spin-output_example :
    Driver.spin 5 [] (piped sent_bytes) none
    ≡ Driver.returned (keyed patterns some_speeds some_events 0 ++ (stop ∷ []))
spin-output_example =
    spin-output patterns some_speeds some_events short_writes (piped sent_bytes) none none 5 tt tt
      tt (carried-piped sent_bytes) (ends-piped sent_bytes) two_keys
