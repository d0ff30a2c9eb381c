-- ===== src/Tests/Keyboard.antt =====
-- The main functions on a command line.
use rob320_p.Base.{ℕ, ◌≡◌, ◌++◌, List, [], ◌∷◌, Bool, Option, some, none, refl, arith}
use rob320_p.Base.Int.{pos}
use rob320_p.Util.ArgumentValues.{Str}
use rob320_p.Util.ArgumentParser.{ArgumentParser, parse, returned}
use rob320_p.Teleop.Loop.{Event, key, closed}
use rob320_p.Programs.Keyboard
use rob320_p.Programs.MBotDriver
use rob320_p.Ipc.File.{ok}
use rob320_p.MBot.Life.{open_port}
use rob320_p.Programs.Whole.{main_output, Commanded, programs-Commanded}
use rob320_p.Driver
use rob320_p.Driver.{stop}
use rob320_p.Messages.Twist2DStamped.{Twist2DStamped}
use rob320_p.Tests.ToyKernel.{toy_kernel}
use rob320_p.Tests.Programs.{patterns, piped, carried-piped, ends-piped}
use rob320_p.Programs.Keyboard.{reals, teleop_parser, main, linear_speed}
use rob320_p.Programs.Keyboard.Start.{Starts, main-Starts}

-- A text of one digit is a double.
abbrev digit : Str → Option ℕ
digit (d ∷ []) = some d
digit _ = none

-- teleop_keyboard --linear_speed 7
abbrev faster : List Str
faster = (45 ∷ 45 ∷ linear_speed) ∷ (55 ∷ []) ∷ []

abbrev forward : List Event
forward = key b'w' (record { tp = pos 5 }) ∷ closed ∷ []

main-Starts_example :
    (p p' : ArgumentParser (reals patterns digit 3 5)) × (ok : Bool) × (teleop_parser patterns digit
        3 5
      ≡ some p)
    × (parse (reals patterns digit 3 5) 2 p faster ≡ returned ok p')
    × Starts patterns digit 3 5 ok p' forward [] none
        (main patterns digit 3 5 (λ entries. entries) 2 faster forward [] none)
main-Starts_example =
    main-Starts patterns digit 3 5 (λ entries. entries) 2 faster forward [] none (omega arith)

abbrev fresh_state : toy_kernel.State
unfolding toy_kernel
fresh_state = record { opened = 0 ∷ []; flags = λ n. 2; waiting = 0 }

abbrev written : List ℕ
written =
    main_output (Keyboard.main patterns digit 3 5 (λ entries. entries) 2 faster forward [] none)

programs-Commanded_example :
    (p p' : ArgumentParser (reals patterns digit 3 5)) × (go : Bool) × (ms : List Twist2DStamped)
    × (teleop_parser patterns digit 3 5 ≡ some p)
    × (parse (reals patterns digit 3 5) 2 p faster ≡ returned go p')
    × (MBotDriver.main toy_kernel 3 (piped written) none fresh_state
        ≡ MBotDriver.runs (Driver.returned (ms ++ (stop ∷ []))))
    × Commanded patterns digit 3 5 go p' forward ms
unfolding open_port toy_kernel ok
programs-Commanded_example =
    programs-Commanded patterns digit 3 5 (λ entries. entries) toy_kernel fresh_state faster 2
      forward [] none none (piped written) 3 (omega arith) tt tt tt (carried-piped written)
      (ends-piped written) (omega arith) refl
