-- ===== src/Programs/Whole.antt =====
-- The two programs one behind the other, as in `teleop_keyboard | mbot_driver`.
use rob320_p.Base.{
  ℕ, ◌+◌, ◌≡◌, ◌≤◌, ◌<◌, List, [], ◌∷◌, ◌++◌, length, Bool, true, false, Option, some, refl, arith,
  ap, ◌∙◌, Option-cases, inl, inr,
}
use rob320_p.Base.Dict.{Dict}
use rob320_p.Io.{Notif, Answer, IsQuiet}
use rob320_p.Io.Stream
use rob320_p.Ipc.Kernel.{Kernel}
use rob320_p.Ipc.File.{ok}
use rob320_p.MBot.Life.{open_port}
use rob320_p.Memory.{to_u32}
use rob320_p.Messages.Twist2DStamped.{Twist2DStamped}
use rob320_p.Util.ArgumentValues.{Str}
use rob320_p.Util.ArgumentParser.{ArgumentParser, Arg, parse, returned}
use rob320_p.Driver
use rob320_p.Driver.{stop}
use rob320_p.Teleop.Key.{Doubles, Speeds, to_upper, velocity}
use rob320_p.Teleop.Output.{Wrote, IsWilling}
use rob320_p.Teleop.Loop.{Event, idle, key, closed, interrupted, would_block, broken}
use rob320_p.Teleop.Sent.{keyed}
use rob320_p.Pipeline.{output, spin-commands, spin-output}
use rob320_p.Programs.Keyboard
use rob320_p.Programs.Keyboard.{reals, teleop_parser, get_double, linear_speed, angular_speed}
use rob320_p.Programs.Keyboard.Start.{Starts, main-Starts}
use rob320_p.Programs.MBotDriver

-- What main of teleop_keyboard has written to its output.
abbrev pub main_output : Keyboard.Main → List ℕ
main_output (Keyboard.runs s) = output s
main_output _ = []

module _ (fp : Doubles) (speeds : Speeds fp) where
  -- A command needs an event.
  length-keyed :
      (events : List Event) (seq : ℕ) → length (keyed fp speeds events seq) ≤ length events
  unfolding keyed
  length-keyed [] seq = omega arith
  length-keyed (idle ∷ events) seq = omega (arith, length-keyed events seq)
  length-keyed (key ch now ∷ events) seq = elim (Option-cases (velocity fp speeds (to_upper ch))) [
    | inl e ↦ rw (keyed, e) (omega (arith, length-keyed events seq))
    | inr (v, e) ↦ rw (keyed, e) (omega (arith, length-keyed events (to_u32 (seq + 1))))
  ]
  length-keyed (closed ∷ events) seq = omega arith
  length-keyed (interrupted ∷ events) seq = omega (arith, length-keyed events seq)
  length-keyed (would_block ∷ events) seq = omega (arith, length-keyed events seq)
  length-keyed (broken ∷ events) seq = omega arith

module _ (fp : Doubles) (stof : Str → Option fp.Double) (linear angular : fp.Double) where
  open fp use {Double}

  abbrev Parser : Type 0
  Parser = ArgumentParser (reals fp stof linear angular)

  -- The commands for the robot: none if the command line was refused, else those of the keys, at the speeds that
  -- the parser gives.
  abbrev pub Commanded : Bool → Parser → List Event → List Twist2DStamped → Type 0
  Commanded false p events ms = ms ≡ []
  Commanded true p events ms =
      (speeds : Speeds fp) × (get_double fp stof linear angular linear_speed p ≡ some speeds.linear)
      × (get_double fp stof linear angular angular_speed p ≡ some speeds.angular)
      × (ms ≡ keyed fp speeds events 0)

  -- What the driver does with the output of a main that starts as it should.
  piped-Commanded :
      (go : Bool) (p : Parser) (m : Keyboard.Main) (events : List Event) (ws : List Wrote)
      (notif notif' : Notif) (input : List Answer) (rounds : ℕ)
      → Starts fp stof linear angular go p events ws notif m
      → IsWilling ws
      → IsQuiet notif
      → IsQuiet notif'
      → Stream.carried input ≡ main_output m
      → Stream.ends input ≡ true
      → length events < rounds
      → (ms : List Twist2DStamped) × (Driver.spin rounds [] input notif'
          ≡ Driver.returned (ms ++ (stop ∷ [])))
        × Commanded go p events ms
  piped-Commanded false p m events ws notif notif' input rounds h w q q' c e l = (
    [],
    spin-commands rounds [] [] input notif' (omega (arith, l)) tt (inl (omega arith)) q'
        (c ∙ ap main_output h) e,
    refl,
  )
  piped-Commanded true p m events ws notif notif' input rounds (speeds, f, g, h) w q q' c e l = (
    keyed fp speeds events 0,
    spin-output fp speeds events ws input notif notif' rounds w q q' (c ∙ ap main_output h) e
        (omega (arith, l, length-keyed fp speeds events 0)),
    (speeds, f, g, refl),
  )

  -- Both programs end to end, from their command line. With as much fuel as arguments, if every write
  -- takes a byte at least or is interrupted, the notifications are quiet, the input of the driver
  -- carries what main of the keyboard has written (however it is cut) and then ends, the rounds are
  -- more than the events, and the port opens: main of the driver returns from its loop and has given
  -- the robot just the commands of the keys, in order, at the speeds that the parser gives, or none if
  -- the command line was refused, and a stop behind them.
  pub programs-Commanded :
      (order : Dict Str (Arg (reals fp stof linear angular))
        → List (Str × Arg (reals fp stof linear angular)))
      (k : Kernel) (s : k.State) (argv : List Str) (fuel : ℕ) (events : List Event)
      (ws : List Wrote) (notif notif' : Notif) (input : List Answer) (rounds : ℕ)
      → length argv ≤ fuel
      → IsWilling ws
      → IsQuiet notif
      → IsQuiet notif'
      → Stream.carried input
        ≡ main_output (Keyboard.main fp stof linear angular order fuel argv events ws notif)
      → Stream.ends input ≡ true
      → length events < rounds
      → ok (open_port k s).0 ≡ true
      → (p p' : Parser) × (go : Bool) × (ms : List Twist2DStamped) × (teleop_parser fp stof linear
            angular
          ≡ some p)
        × (parse (reals fp stof linear angular) fuel p argv ≡ returned go p')
        × (MBotDriver.main k rounds input notif' s
            ≡ MBotDriver.runs (Driver.returned (ms ++ (stop ∷ []))))
        × Commanded go p' events ms
  unfolding MBotDriver.main
  programs-Commanded order k s argv fuel events ws notif notif' input rounds l w q q' c e l'
        opened =
      let (p, p', go, made, parsed, starts) =
        main-Starts fp stof linear angular order fuel argv events ws notif l in
      let (ms, drives, commanded) =
        piped-Commanded go p' (Keyboard.main fp stof linear angular order fuel argv events ws notif)
          events ws notif notif' input rounds starts w q q' c e l' in
      (
        p,
        p',
        go,
        ms,
        made,
        parsed,
        rw (MBotDriver.main, opened) (ap MBotDriver.runs drives),
        commanded,
      )
