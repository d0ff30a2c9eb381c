-- ===== src/Util/ArgumentValues/Numerals.antt =====
-- Decimal numerals through std::stoi, as src/rix/util/argument_parser.cpp reads them.
use rob320_p.Base.{
  ℕ, zero, suc, ◌+◌, ◌-◌, ◌*◌, ◌/◌, ◌%◌, ◌^◌, ◌≡◌, ◌≤◌, ◌<◌, [], ◌∷◌, Bool, true, false, List,
  Option, some, ltb, if◌then◌else◌, arith, refl, ◌∙◌, ap, lt→ltb, ltb→lt, ltb→le, sym, Bool-cases,
  inl, inr,
}
use rob320_p.Base.Int.{ℤ, pos, negsuc}
use rob320_p.Util.ArgumentValues.{
  Str, is_digit, digits_value, unsigned, signed, stoi, skip_spaces, int_of, int_value, parse_one,
  parse_value,
}

-- The digits of `n` in front of a text, on fuel that is `n` at least.
unfoldable pub digits : ℕ → ℕ → Str → Str
digits zero n text = (48 + n % 10) ∷ text
digits (suc fuel) n text =
    let rest = digits fuel (n / 10) ((48 + n % 10) ∷ text) in
    if ltb n 10 then (48 + n % 10) ∷ text else rest

-- A number in decimal, in front of a text.
unfoldable pub numeral : ℤ → Str → Str
unfolding digits
numeral (pos n) text = digits n n text
numeral (negsuc n) text = 45 ∷ digits (suc n) (suc n) text

abbrev pub starts_with_digit : Str → Bool
starts_with_digit [] = false
starts_with_digit (c ∷ cs) = is_digit c

abbrev pub HasDigit : Str → Type 0
HasDigit text = (c : ℕ) × (cs : Str) × (text ≡ c ∷ cs) × (48 ≤ c) × (c ≤ 57)

pub digits-HasDigit : (fuel n : ℕ) (text : Str) → HasDigit (digits fuel n text)
unfolding digits
digits-HasDigit zero n text = (48 + n % 10, text, refl, omega arith, omega arith)
digits-HasDigit (suc fuel) n text = elim (Bool-cases (ltb n 10)) [
  | inl last ↦ rw last (48 + n % 10, text, refl, omega arith, omega arith)
  | inr more ↦ rw more (digits-HasDigit fuel (n / 10) ((48 + n % 10) ∷ text))
]

digits_value-digit :
    (value d : ℕ) (text : Str)
    → d < 10
    → digits_value value ((48 + d) ∷ text) ≡ digits_value (value * 10 + d) text
unfolding digits_value
digits_value-digit value d text h =
    let digit : is_digit (48 + d) ≡ true = ground arith in
    let same : value * 10 + (48 + d - 48) ≡ value * 10 + d = omega arith in
    rw digit (ap (λ v. digits_value v text) same)

digits_value-digits :
    (fuel n : ℕ) (text : Str) → n ≤ fuel → digits_value 0 (digits fuel n text) ≡ digits_value n text
unfolding digits
digits_value-digits zero n text h =
    digits_value-digit 0 (n % 10) text (omega arith)
    ∙ ap (λ v. digits_value v text) (omega (arith, h))
digits_value-digits (suc fuel) n text h = elim (Bool-cases (ltb n 10)) [
  | inl last ↦
      let small : n < 10 = ltb→lt n 10 last in
      rw last (
        digits_value-digit 0 (n % 10) text (omega arith)
        ∙ ap (λ v. digits_value v text) (omega (arith, small)))
  | inr more ↦
      let large : 10 ≤ n = ltb→le n 10 more in
      rw more (
        digits_value-digits fuel (n / 10) ((48 + n % 10) ∷ text) (omega (arith, h, large))
        ∙ digits_value-digit (n / 10) (n % 10) text (omega arith)
        ∙ ap (λ v. digits_value v text) (omega arith))
]

-- A text that does not go on with a digit.
digits_value_end : (n : ℕ) (text : Str) → starts_with_digit text ≡ false → digits_value n text ≡ n
unfolding digits_value
digits_value_end n [] h = refl
digits_value_end n (c ∷ cs) h = ground (arith, h)

unsigned_lem :
    (negative : Bool) (c : ℕ) (cs : Str)
    → is_digit c ≡ true
    → unsigned negative (c ∷ cs) ≡ int_of negative (digits_value 0 (c ∷ cs))
unfolding unsigned
unsigned_lem negative c cs digit = rw (unsigned, digit) refl

unsigned-digits :
    (negative : Bool) (fuel n : ℕ) (text : Str)
    → n ≤ fuel
    → starts_with_digit text ≡ false
    → unsigned negative (digits fuel n text) ≡ int_of negative n
unsigned-digits negative fuel n text h e =
    let (c, cs, front, low, high) = digits-HasDigit fuel n text in
    let digit : is_digit c ≡ true = ground (arith, low, high) in
    let value = digits_value-digits fuel n text h ∙ digits_value_end n text e in
    ap (unsigned negative) front
    ∙ unsigned_lem negative c cs digit
    ∙ ap (λ s. int_of negative (digits_value 0 s)) (sym front)
    ∙ ap (int_of negative) value

-- What an int holds.
abbrev pub IsInt : ℤ → Type 0
IsInt (pos n) = n < 2 ^ 31
IsInt (negsuc n) = n < 2 ^ 31

stoi-digits :
    (fuel n : ℕ) (text : Str)
    → n ≤ fuel
    → starts_with_digit text ≡ false
    → stoi (digits fuel n text) ≡ int_of false n
unfolding stoi skip_spaces signed
stoi-digits fuel n text h e =
    let (c, cs, front, low, high) = digits-HasDigit fuel n text in
    let skipped : skip_spaces (c ∷ cs) ≡ c ∷ cs = ground (arith, low, high) in
    let first : signed (c ∷ cs) ≡ unsigned false (c ∷ cs) = ground (arith, low, high) in
    ap stoi front
    ∙ ap signed skipped
    ∙ first
    ∙ ap (unsigned false) (sym front)
    ∙ unsigned-digits false fuel n text h e

-- The decimal numeral of an int, in front of a text that does not go on with a digit, is read as the
-- int.
pub stoi-numeral :
    (n : ℤ) (text : Str) → IsInt n → starts_with_digit text ≡ false → stoi (numeral n text) ≡ some n
unfolding numeral stoi skip_spaces signed
stoi-numeral (pos zero) text h e = stoi-digits 0 0 text (omega arith) e
stoi-numeral (pos (suc n)) text h e =
    stoi-digits (suc n) (suc n) text (omega arith) e ∙ rw (lt→ltb (suc n) (2 ^ 31) h) refl
stoi-numeral (negsuc n) text h e =
    unsigned-digits true (suc n) (suc n) text (omega arith) e ∙ rw (lt→ltb n (2 ^ 31) h) refl

-- detail::parse of an int, on an argument that is the decimal numeral of an int and then any text that
-- does not begin with a digit: it returns true with that int as the value and the offset one further,
-- as if the text behind the numeral were not there.
pub parse_value-numeral :
    {Double : Type 0} (stof : Str → Option Double) (old n : ℤ) (text : Str) (argv : List Str)
    → IsInt n
    → starts_with_digit text ≡ false
    → parse_value stof (int_value old) (numeral n text ∷ argv) ≡ (true, int_value n, argv)
unfolding parse_value parse_one
parse_value-numeral stof old n text argv h e =
    rw (parse_value, parse_one, stoi-numeral n text h e) refl

int_of-IsInt : (negative : Bool) (n : ℕ) (z : ℤ) → int_of negative n ≡ some z → IsInt z
int_of-IsInt negative zero (pos m) h = ground (arith, h)
int_of-IsInt negative zero (negsuc m) h = ground (arith, h)
int_of-IsInt true (suc n) (pos m) h = ground (arith, h)
int_of-IsInt true (suc n) (negsuc m) h = ground (arith, h)
int_of-IsInt false (suc n) (pos m) h = ground (arith, h)
int_of-IsInt false (suc n) (negsuc m) h = ground (arith, h)

unsigned-IsInt : (negative : Bool) (str : Str) (z : ℤ) → unsigned negative str ≡ some z → IsInt z
unfolding unsigned
unsigned-IsInt negative [] z h = absurd (ground (arith, h))
unsigned-IsInt negative (c ∷ cs) z h = elim (Bool-cases (is_digit c)) [
  | inl digit ↦
      int_of-IsInt negative (digits_value 0 (c ∷ cs)) z (sym (unsigned_lem negative c cs digit) ∙ h)
  | inr other ↦ absurd (ground (arith, h, other))
]

signed-IsInt : (str : Str) (z : ℤ) → signed str ≡ some z → IsInt z
unfolding signed
signed-IsInt [] z h = absurd (ground (arith, h))
signed-IsInt (c ∷ cs) z h =
    ground (
      arith,
      h,
      unsigned-IsInt true cs z,
      unsigned-IsInt false cs z,
      unsigned-IsInt false (c ∷ cs) z,
    )

-- What is read as an int is in the range of an int.
stoi-IsInt : (str : Str) (z : ℤ) → stoi str ≡ some z → IsInt z
unfolding stoi
stoi-IsInt str z h = signed-IsInt (skip_spaces str) z h
