-- ===== src/Programs/Keyboard.antt =====
-- The function main of src/teleop_keyboard/main.cpp. The Fifo, the standard output and the Signal that it makes
-- enter as what the loop meets at them, as in Teleop.Loop.
pub mod Start
use rob320_p.Base.{ℕ, List, [], ◌∷◌, Bool, true, false, Option, none, some, ◌>>=◌}
use rob320_p.Base.Dict.{Dict}
use rob320_p.Io.{Notif}
use rob320_p.Util.ArgumentValues.{
  Str, Value, double_kind, bool_value, char_value, int_value, double_value, string_value,
  ints_value, doubles_value, strings_value,
}
use rob320_p.Util.ArgumentParser
use rob320_p.Util.ArgumentParser.{
  Reals, Arg, ArgumentParser, construct, add_short, parse, get, Outcome, spent, thrown, returned,
}
use rob320_p.Util.ArgumentParser.Help.{help}
use rob320_p.Teleop.Key.{Doubles, Speeds}
use rob320_p.Teleop.Output.{Wrote}
use rob320_p.Teleop.Loop.{Event, Spin, spin}

abbrev pub linear_speed : Str
linear_speed =
    b'l' ∷ b'i' ∷ b'n' ∷ b'e' ∷ b'a' ∷ b'r' ∷ b'_' ∷ b's' ∷ b'p' ∷ b'e' ∷ b'e' ∷ b'd' ∷ []

abbrev pub angular_speed : Str
angular_speed =
    b'a' ∷ b'n' ∷ b'g' ∷ b'u' ∷ b'l' ∷ b'a' ∷ b'r' ∷ b'_' ∷ b's' ∷ b'p' ∷ b'e' ∷ b'e' ∷ b'd' ∷ []

abbrev program_name : Str
program_name =
    b't' ∷ b'e' ∷ b'l' ∷ b'e' ∷ b'o' ∷ b'p' ∷ 95 ∷ b'k' ∷ b'e' ∷ b'y' ∷ b'b' ∷ b'o' ∷ b'a' ∷ b'r'
    ∷ b'd' ∷ []

abbrev program_text : Str
program_text =
    b'S' ∷ b'e' ∷ b'n' ∷ b'd' ∷ b's' ∷ b' ' ∷ b'd' ∷ b'r' ∷ b'i' ∷ b'v' ∷ b'e' ∷ b' ' ∷ b'c' ∷ b'o'
    ∷ b'm' ∷ b'm' ∷ b'a' ∷ b'n' ∷ b'd' ∷ b's' ∷ b' ' ∷ b't' ∷ b'o' ∷ b' ' ∷ b's' ∷ b't' ∷ b'd'
    ∷ b'o' ∷ b'u' ∷ b't' ∷ b' ' ∷ b'c' ∷ b'o' ∷ b'r' ∷ b'r' ∷ b'e' ∷ b's' ∷ b'p' ∷ b'o' ∷ b'n'
    ∷ b'd' ∷ b'i' ∷ b'n' ∷ b'g' ∷ b' ' ∷ b't' ∷ b'o' ∷ b' ' ∷ b'c' ∷ b'h' ∷ b'a' ∷ b'r' ∷ b'a'
    ∷ b'c' ∷ b't' ∷ b'e' ∷ b'r' ∷ b's' ∷ b' ' ∷ b'w' ∷ b'r' ∷ b'i' ∷ b't' ∷ b't' ∷ b'e' ∷ b'n'
    ∷ b' ' ∷ b't' ∷ b'o' ∷ b' ' ∷ b'F' ∷ b'I' ∷ b'F' ∷ b'O' ∷ b'.' ∷ []

abbrev linear_text : Str
linear_text =
    b'L' ∷ b'i' ∷ b'n' ∷ b'e' ∷ b'a' ∷ b'r' ∷ b' ' ∷ b's' ∷ b'p' ∷ b'e' ∷ b'e' ∷ b'd' ∷ b' ' ∷ b't'
    ∷ b'o' ∷ b' ' ∷ b'd' ∷ b'r' ∷ b'i' ∷ b'v' ∷ b'e' ∷ b' ' ∷ b't' ∷ b'h' ∷ b'e' ∷ b' ' ∷ b'M'
    ∷ b'B' ∷ b'o' ∷ b't' ∷ b' ' ∷ b'(' ∷ b'm' ∷ b'/' ∷ b's' ∷ b')' ∷ []

abbrev angular_text : Str
angular_text =
    b'A' ∷ b'n' ∷ b'g' ∷ b'u' ∷ b'l' ∷ b'a' ∷ b'r' ∷ b' ' ∷ b's' ∷ b'p' ∷ b'e' ∷ b'e' ∷ b'd' ∷ b' '
    ∷ b't' ∷ b'o' ∷ b' ' ∷ b'd' ∷ b'r' ∷ b'i' ∷ b'v' ∷ b'e' ∷ b' ' ∷ b't' ∷ b'h' ∷ b'e' ∷ b' '
    ∷ b'M' ∷ b'B' ∷ b'o' ∷ b't' ∷ b' ' ∷ b'(' ∷ b'r' ∷ b'a' ∷ b'd' ∷ b'/' ∷ b's' ∷ b')' ∷ []

-- How main ends or stands: its exit code, its loop, or an exception.
pub data Main : Type 0 where
  exits : ℕ → Main
  runs : Spin → Main
  throws starved : Main

-- `linear` and `angular` are 0.25 and 1.570796.
module _ (fp : Doubles) (stof : Str → Option fp.Double) (linear angular : fp.Double) where
  open fp use {Double}

  abbrev pub reals : Reals
  reals = record { Double = Double; null = fp.nought; stof = stof }

  -- Up to `parse`; `none` is an exception of `add`.
  unfoldable pub teleop_parser : Option (ArgumentParser reals)
  unfolding construct add_short
  teleop_parser =
      add_short reals linear_speed linear_text b'l' (double_value linear)
        (construct reals program_name program_text)
      >>= add_short reals angular_speed angular_text b'a' (double_value angular)

  -- get<double>
  abbrev pub double_of : Option (Value Double) → Option Double
  double_of (some (double_value x)) = some x
  double_of _ = none

  unfoldable pub get_double : Str → ArgumentParser reals → Option Double
  unfolding get
  get_double name p = double_of (get reals double_kind name p)

  -- Both calls of get, from `double linear_speed` on.
  unfoldable pub get_speeds : ArgumentParser reals → Option (Speeds fp)
  unfolding get_double
  get_speeds p = get_double linear_speed p >>= λ x.
      get_double angular_speed p >>= λ y. some (record { linear = x; angular = y })

  unfoldable pub run : Option (Speeds fp) → List Event → List Wrote → Notif → Main
  unfolding spin
  run none events ws notif = exits 1
  run (some speeds) events ws notif = runs (spin fp speeds events 0 [] ws notif)

  -- `std::cerr << parser.help()` and the return
  abbrev pub after_help : Option Str → Main
  after_help none = throws
  after_help (some text) = exits 1

  -- The order in which the map of the arguments is run through.
  module _ (order : Dict Str (Arg reals) → List (Str × Arg reals)) where
    unfoldable pub after_parse : Outcome reals → List Event → List Wrote → Notif → Main
    unfolding get_speeds run help
    after_parse spent events ws notif = starved
    after_parse thrown events ws notif = throws
    after_parse (returned false p) events ws notif = after_help (help reals (order p.args) p)
    after_parse (returned true p) events ws notif = run (get_speeds p) events ws notif

    -- From the call of parse on.
    unfoldable pub after_adds :
        Option (ArgumentParser reals) → ℕ → List Str → List Event → List Wrote → Notif → Main
    unfolding parse after_parse
    after_adds none fuel argv events ws notif = throws
    after_adds (some p) fuel argv events ws notif =
        after_parse (parse reals fuel p argv) events ws notif

    unfoldable pub main : ℕ → List Str → List Event → List Wrote → Notif → Main
    unfolding teleop_parser after_adds
    main = after_adds teleop_parser
