-- ===== src/Util/ArgumentParser.antt =====
-- class ArgumentParser of include/rix/util/argument_parser.hpp and src/rix/util/argument_parser.cpp.
pub mod Keys
pub mod Returns
pub mod Built
pub mod Texts
pub mod Settings
pub mod Help
use rob320_p.Base.{
  ℕ, zero, suc, ◌+◌, List, [], ◌∷◌, ◌++◌, length, Bool, true, false, not, ◌&&◌, ◌||◌, Option, none,
  some, ◌==◌, ltb, leb, if◌then◌else◌, map,
}
use rob320_p.Base.Dict.{Dict, char_key, string_key, lookup, insert, emplace}
use rob320_p.Util.ArgumentValues.{
  Str, Kind, bool_kind, Value, index, parse_value, is_digit, bool_value, char_value, int_value,
  double_value, string_value, ints_value, doubles_value, strings_value, char_kind, int_kind,
  double_kind, string_kind, ints_kind, doubles_kind, strings_kind,
}
use rob320_p.Base.Int.{ℤ, pos}

-- std::isalnum of the C locale
abbrev pub isalnum_char : ℕ → Bool
isalnum_char c = is_digit c || ((leb 65 c && leb c 90) || (leb 97 c && leb c 122))

-- detail::isalnum
unfoldable pub isalnum : Str → Bool
isalnum [] = true
isalnum (c ∷ cs) = (isalnum_char c || c == 95) && isalnum cs

-- Two kinds, compared.
abbrev pub same_kind : Kind → Kind → Bool
same_kind bool_kind bool_kind = true
same_kind char_kind char_kind = true
same_kind int_kind int_kind = true
same_kind double_kind double_kind = true
same_kind string_kind string_kind = true
same_kind ints_kind ints_kind = true
same_kind doubles_kind doubles_kind = true
same_kind strings_kind strings_kind = true
same_kind _ _ = false

-- `double`, with T() and with std::stof converted to it.
pub record Reals : Type 1 where
  pub Double : Type 0
  pub null : Double
  pub stof : Str → Option Double

module _ (r : Reals) where
  open r use {Double}

  -- T()
  abbrev pub initial : Kind → Value Double
  initial bool_kind = bool_value false
  initial char_kind = char_value 0
  initial int_kind = int_value (pos 0)
  initial double_kind = double_value r.null
  initial string_kind = string_value []
  initial ints_kind = ints_value []
  initial doubles_kind = doubles_value []
  initial strings_kind = strings_value []

  pub record Arg : Type 0 where
    pub name : Str
    pub description : Str
    pub value : Value Double
    pub required : Bool
    pub short_name : ℕ

  pub record ArgumentParser : Type 0 where
    pub name : Str
    pub description : Str
    pub required_arg_names : List Str
    pub short_to_long : Dict ℕ Str
    pub args : Dict Str Arg

  -- ArgumentParser(name, description)
  unfoldable pub construct : Str → Str → ArgumentParser
  construct name description = record {
    name = name;
    description = description;
    required_arg_names = [];
    short_to_long = [];
    args = [];
  }

  -- Arg(…); `none` is std::invalid_argument.
  unfoldable pub make_arg : Str → Str → ℕ → Value Double → Bool → Option Arg
  unfolding isalnum index
  make_arg name description short_name default_value required =
      if ltb (length name) 2 || not (isalnum name)
      then none
      else if same_kind (index default_value) bool_kind && required
      then none
      else some (record {
        name = name;
        description = description;
        value = default_value;
        required = required;
        short_name = short_name;
      })

  -- add(const Arg &)
  unfoldable pub add : Arg → ArgumentParser → ArgumentParser
  unfolding insert emplace
  add arg p = record p {
    required_arg_names =
        if arg.required then p.required_arg_names ++ (arg.name ∷ []) else p.required_arg_names;
    short_to_long =
        if arg.required || arg.short_name == 0
        then p.short_to_long
        else insert arg.short_name arg.name p.short_to_long;
    args = emplace arg.name arg p.args;
  }

  unfoldable pub add_made : Option Arg → ArgumentParser → Option ArgumentParser
  unfolding add
  add_made none p = none
  add_made (some arg) p = some (add arg p)

  -- add<T>(name, description)
  unfoldable pub add_required : Str → Str → Kind → ArgumentParser → Option ArgumentParser
  unfolding add_made make_arg
  add_required name description kind = add_made (make_arg name description 0 (initial kind) true)

  -- add<T>(name, description, default_value)
  unfoldable pub add_optional : Str → Str → Value Double → ArgumentParser → Option ArgumentParser
  unfolding add_made make_arg
  add_optional name description default_value =
      add_made (make_arg name description 0 default_value false)

  -- add<T>(name, description, short_name, default_value)
  unfoldable pub add_short : Str → Str → ℕ → Value Double → ArgumentParser → Option ArgumentParser
  unfolding add_made make_arg
  add_short name description short_name default_value p =
      if isalnum_char short_name
      then add_made (make_arg name description short_name default_value false) p
      else none

  -- get<T>, of the kind of T
  unfoldable pub get : Kind → Str → ArgumentParser → Option (Value Double)
  unfolding lookup index
  get kind name p = elim (lookup name p.args) [
    | none ↦ none
    | some arg ↦ if same_kind (index arg.value) kind then some arg.value else none
  ]

  -- What parsing an argument of args_ gives: there is none of the name, or the result of parse_arg, the
  -- parser and the arguments that are left.
  pub data Assigned : Type 0 where
    missing : Assigned
    failed : ArgumentParser → Assigned
    assigned : ArgumentParser → List Str → Assigned

  abbrev pub set_value : Str → Arg → Value Double → ArgumentParser → ArgumentParser
  set_value name arg value p = record p { args = insert name (record arg { value = value }) p.args }

  abbrev pub store : Str → Arg → Bool × Value Double × List Str → ArgumentParser → Assigned
  store name arg (true, value, argv) p = assigned (set_value name arg value p) argv
  store name arg (false, value, argv) p = failed (set_value name arg value p)

  -- parse_arg of an entry
  unfoldable pub parse_arg : Str → ArgumentParser → List Str → Assigned
  unfolding lookup insert parse_value
  parse_arg name p argv = elim (lookup name p.args) [
    | none ↦ missing
    | some arg ↦ store name arg (parse_value r.stof arg.value argv) p
  ]

  -- The loop over required_arg_names_.
  unfoldable pub parse_required : List Str → ArgumentParser → List Str → Assigned
  unfolding parse_arg
  parse_required [] p argv = assigned p argv
  parse_required (name ∷ names) p argv = elim (parse_arg name p argv) [
    | missing ↦ missing
    | failed p' ↦ failed p'
    | assigned p' argv' ↦ parse_required names p' argv'
  ]

  -- The long name that an option stands for.
  unfoldable pub long_name : Str → ArgumentParser → Option Str
  unfolding lookup
  long_name [] p = none
  long_name (a ∷ []) p = none
  long_name (a ∷ b ∷ []) p = if a == 45 then lookup b p.short_to_long else none
  long_name (a ∷ b ∷ c ∷ []) p = none
  long_name (a ∷ b ∷ c ∷ d ∷ cs) p = if a == 45 && b == 45 then some (c ∷ d ∷ cs) else none

  -- `spent` is fuel that ran out, `thrown` the exception of args_.at.
  pub data Outcome : Type 0 where
    spent thrown : Outcome
    returned : Bool → ArgumentParser → Outcome

  -- The loop over the options.
  unfoldable pub parse_options : ℕ → ArgumentParser → List Str → Outcome
  unfolding parse_arg long_name
  parse_options fuel p [] = returned true p
  parse_options zero p (str ∷ argv) = spent
  parse_options (suc fuel) p (str ∷ argv) = elim (long_name str p) [
    | none ↦ returned false p
    | some name ↦ elim (parse_arg name p argv) [
      | missing ↦ returned false p
      | failed p' ↦ returned false p'
      | assigned p' argv' ↦ parse_options fuel p' argv'
    ]
  ]

  abbrev pub after_required : ℕ → Assigned → Outcome
  after_required fuel missing = thrown
  after_required fuel (failed p) = returned false p
  after_required fuel (assigned p argv) = parse_options fuel p argv

  -- With argc = 0, argc - 1 is the largest size_t and the offset is beyond argc.
  abbrev pub parse_nothing : List Str → ArgumentParser → Outcome
  parse_nothing [] p = returned true p
  parse_nothing (name ∷ names) p = elim (lookup name p.args) [
    | none ↦ thrown
    | some arg ↦ returned false p
  ]

  unfoldable pub parse : ℕ → ArgumentParser → List Str → Outcome
  unfolding parse_required parse_options
  parse fuel p [] = parse_nothing p.required_arg_names p
  parse fuel p (program ∷ argv) =
      if ltb (length argv) (length p.required_arg_names)
      then returned false p
      else after_required fuel (parse_required p.required_arg_names p argv)
