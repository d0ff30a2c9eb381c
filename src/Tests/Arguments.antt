-- ===== src/Tests/Arguments.antt =====
-- ArgumentParser on a small command line: a required port and an option speed, -s for short.
use rob320_p.Base.{ℕ, ◌≡◌, List, [], ◌∷◌, true, false, refl, All, arith, some, none}
use rob320_p.Base.Int.{pos, negsuc}
use rob320_p.Base.Dict.{char_key, string_key, lookup, emplace, insert}
use rob320_p.Util.ArgumentValues.{
  Str, Kind, string_kind, string_value, int_value, parse_value, index,
}
use rob320_p.Util.ArgumentValues.Numerals.{numeral, parse_value-numeral}
use rob320_p.Util.ArgumentParser.{
  Reals, ArgumentParser, construct, add_required, add_short, add_made, make_arg, add, isalnum,
  parse, parse_options, get, returned,
}
use rob320_p.Util.ArgumentParser.Help.{help, ShowsRequired, ShowsOption, help-Shows}
use rob320_p.Util.ArgumentParser.Returns.{Returns}
use rob320_p.Util.ArgumentParser.Built.{
  Built, constructed, added_required, added_short, Built-Returns, short_as_long,
}
use rob320_p.Util.ArgumentParser.Settings.{
  Setting, options, positional, chosen, of_kind, value_of, parse-get,
}

-- No text is a double here.
abbrev reals : Reals
reals = record { Double = ℕ; null = 0; stof = λ s. none }

abbrev port : Str
port = 112 ∷ 111 ∷ 114 ∷ 116 ∷ []

abbrev speed : Str
speed = 115 ∷ 112 ∷ 101 ∷ 101 ∷ 100 ∷ []

abbrev parser : ArgumentParser reals
parser = record {
  name = [];
  description = [];
  required_arg_names = port ∷ [];
  short_to_long = (115, speed) ∷ [];
  args =
      (
        port,
        record {
          name = port;
          description = [];
          value = string_value [];
          required = true;
          short_name = 0;
        },
      )
      ∷ (
        speed,
        record {
          name = speed;
          description = [];
          value = int_value (pos 1);
          required = false;
          short_name = 115;
        },
      )
      ∷ [];
}

parser-Built : Built reals parser
unfolding char_key string_key construct add_required add_short add_made make_arg add isalnum emplace
    insert index
parser-Built =
    added_short speed [] 115 (int_value (pos 1)) _
      (added_required port [] string_kind _ (constructed [] []) refl) refl

-- The arguments "x y" behind the name of the program.
abbrev line : List Str
line = (112 ∷ []) ∷ (120 ∷ []) ∷ (121 ∷ []) ∷ []

Built-Returns_example : Returns reals parser (parse reals 3 parser line)
Built-Returns_example = Built-Returns reals parser 3 line parser-Built (omega arith)

short_as_long_example :
    parse_options reals 3 parser ((45 ∷ 115 ∷ []) ∷ (55 ∷ []) ∷ [])
    ≡ parse_options reals 3 parser ((45 ∷ 45 ∷ speed) ∷ (55 ∷ []) ∷ [])
unfolding char_key string_key lookup
short_as_long_example = short_as_long reals parser 2 115 speed ((55 ∷ []) ∷ []) parser-Built refl

abbrev ports : List (Setting reals)
ports = (port, string_value (47 ∷ [])) ∷ []

abbrev speeds : List (Setting reals)
speeds = (speed, int_value (negsuc 41)) ∷ []

parse-get_example :
    (p : ArgumentParser reals) × (parse reals 3 parser
        (port ∷ positional reals ports (options reals speeds))
      ≡ returned true p)
    × ((kind : Kind) (n : Str)
        → get reals kind n p
          ≡ of_kind reals kind
              (chosen reals n speeds (chosen reals n ports (value_of reals n parser))))
unfolding char_key string_key lookup index positional options
parse-get_example =
    parse-get reals parser 3 port ports speeds refl ((refl, tt, tt), tt)
      ((refl, omega arith, omega arith), tt) (omega arith)

parse_value-numeral_example :
    parse_value reals.stof (int_value (pos 0)) (numeral (negsuc 41) (b'x' ∷ []) ∷ (b'y' ∷ []) ∷ [])
    ≡ (true, int_value (negsuc 41), (b'y' ∷ []) ∷ [])
parse_value-numeral_example =
    parse_value-numeral reals.stof (pos 0) (negsuc 41) (b'x' ∷ []) ((b'y' ∷ []) ∷ []) (omega arith)
      refl

help-Shows_example :
    (text : Str) × (help reals parser.args parser ≡ some text)
    × All (ShowsRequired reals parser text) parser.required_arg_names
    × All (ShowsOption reals text) parser.args
help-Shows_example = help-Shows reals parser parser.args parser-Built
