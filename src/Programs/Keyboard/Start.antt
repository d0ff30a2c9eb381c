-- ===== src/Programs/Keyboard/Start.antt =====
-- How main of src/teleop_keyboard/main.cpp starts.
use rob320_p.Base.{
  ℕ, ◌≡◌, ◌≤◌, List, [], length, Bool, true, false, Option, some, refl, arith, ap, sym, ◌∙◌, inl,
  inr, Option-cases,
}
use mathlib.Core.Path.{subst}
use rob320_p.Base.Dict.{Dict, char_key, string_key, lookup, insert, emplace}
use rob320_p.Io.{Notif}
use rob320_p.Util.ArgumentValues.{Str, Kind, Value, index, double_kind, double_value}
use rob320_p.Util.ArgumentParser.{
  Reals, Arg, ArgumentParser, construct, add_short, add_made, make_arg, add, isalnum, parse, get,
  returned,
}
use rob320_p.Util.ArgumentParser.Keys.{kind_of, arg_kind}
use rob320_p.Util.ArgumentParser.Built.{Built, constructed, added_short, parsed, Built-Returns}
use rob320_p.Util.ArgumentParser.Help.{help-Shows}
use rob320_p.Teleop.Key.{Doubles, Speeds}
use rob320_p.Teleop.Output.{Wrote}
use rob320_p.Teleop.Loop.{Event, spin}
use rob320_p.Programs.Keyboard.{
  linear_speed, angular_speed, Main, exits, runs, reals, teleop_parser, get_double, get_speeds, run,
  after_parse, after_adds, after_help, main,
}

module _ (fp : Doubles) (stof : Str → Option fp.Double) (linear angular : fp.Double) where
  open fp use {Double}

  abbrev options : Reals
  options = reals fp stof linear angular

  -- The parser has both options.
  parser_made :
      (p : ArgumentParser options) × (teleop_parser fp stof linear angular ≡ some p)
      × Built options p
      × (kind_of options linear_speed p ≡ some double_kind)
      × (kind_of options angular_speed p ≡ some double_kind)
  unfolding teleop_parser char_key string_key construct add_short add_made make_arg add isalnum
      emplace insert lookup index
  parser_made = (
    _,
    refl,
    added_short angular_speed _ b'a' (double_value angular) _
        (added_short linear_speed _ b'l' (double_value linear) _ (constructed _ _) refl) refl,
    refl,
    refl,
  )

  -- An argument of type double has a value that get<double> gives.
  get_double-some :
      (name : Str) (p : ArgumentParser options)
      → kind_of options name p ≡ some double_kind
      → (x : Double) × (get_double fp stof linear angular name p ≡ some x)
  unfolding get_double get
  get_double-some name p known = elim (Option-cases (lookup name p.args)) [
    | inl e ↦ absurd (ground (arith, e, known))
    | inr (arg, e) ↦
        let (x, f) = value_double arg.value (some_kind (sym (ap (arg_kind options) e) ∙ known)) in
        (x, rw (get_double, get, e, f) refl)
  ]
    where
      some_kind : {a b : Kind} → some a ≡ some b → a ≡ b
      some_kind h = cc

      value_double :
          (v : Value Double) → index v ≡ double_kind → (x : Double) × (v ≡ double_value x)
      value_double (double_value x) h = (x, refl)
      value_double _ h = absurd (ground (arith, h))

  -- What main does with the result of parse.
  abbrev pub Starts :
      Bool → ArgumentParser options → List Event → List Wrote → Notif → Main → Type 0
  Starts false p events ws notif m = m ≡ exits 1
  Starts true p events ws notif m =
      (speeds : Speeds fp) × (get_double fp stof linear angular linear_speed p ≡ some speeds.linear)
      × (get_double fp stof linear angular angular_speed p ≡ some speeds.angular)
      × (m ≡ runs (spin fp speeds events 0 [] ws notif))

  module _ (order : Dict Str (Arg options) → List (Str × Arg options)) where
    after_parse-Starts :
        (ok : Bool) (p : ArgumentParser options) (events : List Event) (ws : List Wrote)
        (notif : Notif)
        → Built options p
        → kind_of options linear_speed p ≡ some double_kind
        → kind_of options angular_speed p ≡ some double_kind
        → Starts ok p events ws notif
            (after_parse fp stof linear angular order (returned ok p) events ws notif)
    unfolding after_parse get_speeds run
    after_parse-Starts false p events ws notif b h k =
        let (text, e, shown, lines) = help-Shows options p (order p.args) b in
        ap (after_help fp stof linear angular) e
    after_parse-Starts true p events ws notif b h k =
        let (x, e) = get_double-some linear_speed p h in
        let (y, f) = get_double-some angular_speed p k in
        (record { linear = x; angular = y }, e, f, rw (get_speeds, e, f) refl)

    main_of :
        (fuel : ℕ) (argv : List Str) (events : List Event) (ws : List Wrote) (notif : Notif)
        (p p' : ArgumentParser options) (ok : Bool)
        → teleop_parser fp stof linear angular ≡ some p
        → parse options fuel p argv ≡ returned ok p'
        → main fp stof linear angular order fuel argv events ws notif
          ≡ after_parse fp stof linear angular order (returned ok p') events ws notif
    unfolding main after_adds
    main_of fuel argv events ws notif p p' ok e f =
        ap (λ o. after_adds fp stof linear angular order o fuel argv events ws notif) e
        ∙ ap (λ r. after_parse fp stof linear angular order r events ws notif) f

    -- With as much fuel as arguments, main of teleop_keyboard makes its parser without an exception and
    -- parse returns, whatever the arguments are. If parse fails, main exits with 1; otherwise get finds
    -- both speeds, and main runs the loop of the keyboard with them, from sequence number 0.
    pub main-Starts :
        (fuel : ℕ) (argv : List Str) (events : List Event) (ws : List Wrote) (notif : Notif)
        → length argv ≤ fuel
        → (p p' : ArgumentParser options) × (ok : Bool) × (teleop_parser fp stof linear angular
            ≡ some p)
          × (parse options fuel p argv ≡ returned ok p')
          × Starts ok p' events ws notif
              (main fp stof linear angular order fuel argv events ws notif)
    main-Starts fuel argv events ws notif l =
        let (p, e, built, h, k) = parser_made in
        let (ok, p', f, same) = Built-Returns options p fuel argv built l in
        (
          p,
          p',
          ok,
          e,
          f,
          subst (Starts ok p' events ws notif) (sym (main_of fuel argv events ws notif p p' ok e f))
              (after_parse-Starts ok p' events ws notif (parsed fuel argv ok p built l f)
                (same.same_kinds linear_speed ∙ h) (same.same_kinds angular_speed ∙ k)),
        )
