-- ===== src/Util/ArgumentValues.antt =====
-- The values of arguments and the functions detail::parse of include/rix/util/argument_parser.hpp and
-- src/rix/util/argument_parser.cpp. A string is its bytes; argv behind the offset is a list of strings.
pub mod Numerals
use rob320_p.Base.{
  ℕ, zero, suc, ◌+◌, ◌-◌, ◌*◌, ◌^◌, List, [], ◌∷◌, ◌++◌, Bool, true, false, not, ◌&&◌, ◌||◌, Option,
  none, some, ◌==◌, ltb, leb, if◌then◌else◌,
}
use rob320_p.Base.Int.{ℤ, pos, negsuc}

abbrev pub Str : Type 0
Str = List ℕ

-- isspace and isdigit, of the C locale
abbrev pub is_space : ℕ → Bool
is_space c = c == 32 || (leb 9 c && leb c 13)

abbrev pub is_digit : ℕ → Bool
is_digit c = leb 48 c && leb c 57

unfoldable pub skip_spaces : Str → Str
skip_spaces [] = []
skip_spaces (c ∷ cs) = let rest = skip_spaces cs in if is_space c then rest else c ∷ cs

-- The value of the digits that are in front.
unfoldable pub digits_value : ℕ → Str → ℕ
digits_value value [] = value
digits_value value (c ∷ cs) =
    let more = digits_value (value * 10 + (c - 48)) cs in if is_digit c then more else value

-- The number that a sign and a value make, if it is in the range of an int.
abbrev pub int_of : Bool → ℕ → Option ℤ
int_of negative zero = some (pos 0)
int_of true (suc n) = if ltb n (2 ^ 31) then some (negsuc n) else none
int_of false (suc n) = if ltb (suc n) (2 ^ 31) then some (pos (suc n)) else none

unfoldable pub unsigned : Bool → Str → Option ℤ
unfolding digits_value
unsigned negative [] = none
unsigned negative (c ∷ cs) = if is_digit c then int_of negative (digits_value 0 (c ∷ cs)) else none

-- std::stoi to the base ten; `none` is one of its two exceptions.
unfoldable pub signed : Str → Option ℤ
unfolding unsigned
signed [] = none
signed (c ∷ cs) =
    if c == 45
    then unsigned true cs
    else if c == 43
    then unsigned false cs
    else unsigned false (c ∷ cs)

unfoldable pub stoi : Str → Option ℤ
unfolding skip_spaces signed
stoi str = signed (skip_spaces str)

-- VariantIndex
pub data Kind : Type 0 where
  bool_kind char_kind int_kind double_kind string_kind ints_kind doubles_kind strings_kind : Kind

-- Value, over the type double
pub data Value (Double : Type 0) : Type 0 where
  bool_value : Bool → Value Double
  char_value : ℕ → Value Double
  int_value : ℤ → Value Double
  double_value : Double → Value Double
  string_value : Str → Value Double
  ints_value : List ℤ → Value Double
  doubles_value : List Double → Value Double
  strings_value : List Str → Value Double

unfoldable pub index : {Double : Type 0} → Value Double → Kind
index (bool_value b) = bool_kind
index (char_value c) = char_kind
index (int_value n) = int_kind
index (double_value x) = double_kind
index (string_value s) = string_kind
index (ints_value ns) = ints_kind
index (doubles_value xs) = doubles_kind
index (strings_value ss) = strings_kind

-- What detail::parse gives: its result, the value, and the arguments behind the new offset.
abbrev pub Parsed : Type 0 → Type 0
Parsed A = Bool × A × List Str

-- detail::parse of a type that reads one argument.
unfoldable pub parse_one : {A : Type 0} → (Str → Option A) → A → List Str → Parsed A
parse_one read value [] = (false, value, [])
parse_one read value (str ∷ argv) = elim (read str) [
  | none ↦ (false, value, argv)
  | some a ↦ (true, a, argv)
]

abbrev pub read_char : Str → Option ℕ
read_char [] = none
read_char (c ∷ []) = some c
read_char (c ∷ c' ∷ cs) = none

abbrev pub read_string : Str → Option Str
read_string str = some str

-- detail::parse of a bool, where the offset is argc at most.
abbrev pub parse_bool : Bool → List Str → Parsed Bool
parse_bool value argv = (true, not value, argv)

abbrev pub is_dashed : Str → Bool
is_dashed [] = false
is_dashed (c ∷ cs) = c == 45

unfoldable pub parse_elements :
    {A : Type 0} → (Str → Option A) → List A → List Str → Parsed (List A)
parse_elements read value [] = (true, value, [])
parse_elements read value (str ∷ argv) = elim (is_dashed str) [
  | true ↦ (true, value, str ∷ argv)
  | false ↦ elim (read str) [
    | none ↦ (false, [], argv)
    | some a ↦ parse_elements read (value ++ (a ∷ [])) argv
  ]
]

-- detail::parse of a vector.
unfoldable pub parse_vector : {A : Type 0} → (Str → Option A) → List A → List Str → Parsed (List A)
unfolding parse_elements
parse_vector read value [] = (false, value, [])
parse_vector read value (str ∷ argv) = parse_elements read [] (str ∷ argv)

abbrev pub with_value : {A B : Type 0} → (A → B) → Parsed A → Parsed B
with_value f (ok, value, argv) = (ok, f value, argv)

-- The `switch` of ArgumentParser::parse_arg. `stof` is std::stof, converted to double.
unfoldable pub parse_value :
    {Double : Type 0} → (Str → Option Double) → Value Double → List Str → Parsed (Value Double)
unfolding parse_one parse_vector stoi
parse_value stof (bool_value b) argv = with_value bool_value (parse_bool b argv)
parse_value stof (char_value c) argv = with_value char_value (parse_one read_char c argv)
parse_value stof (int_value n) argv = with_value int_value (parse_one stoi n argv)
parse_value stof (double_value x) argv = with_value double_value (parse_one stof x argv)
parse_value stof (string_value s) argv = with_value string_value (parse_one read_string s argv)
parse_value stof (ints_value ns) argv = with_value ints_value (parse_vector stoi ns argv)
parse_value stof (doubles_value xs) argv = with_value doubles_value (parse_vector stof xs argv)
parse_value stof (strings_value ss) argv =
    with_value strings_value (parse_vector read_string ss argv)
