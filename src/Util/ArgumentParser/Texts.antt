-- ===== src/Util/ArgumentParser/Texts.antt =====
-- The values of arguments in texts on a command line, and reading them (src/rix/util/argument_parser.cpp).
use rob320_p.Base.{
  ◌≡◌, ◌<◌, ◌^◌, List, [], ◌∷◌, ◌++◌, length, map, true, false, Option, some, refl, arith, All, sym,
  ap, ◌∙◌, append-nil, append_assoc,
}
use rob320_p.Base.Int.{ℤ, pos, negsuc}
use rob320_p.Util.ArgumentValues.{
  Str, Value, index, parse_value, parse_one, parse_vector, parse_elements, is_dashed, char_value,
  int_value, read_string, string_value, ints_value, strings_value, with_value, stoi,
}
use rob320_p.Util.ArgumentValues.Numerals.{numeral, digits-HasDigit, IsInt, stoi-numeral}

-- The end of argv, or an option next.
abbrev pub IsEnd : List Str → Type 0
IsEnd [] = Unit
IsEnd (str ∷ argv) = is_dashed str ≡ true

-- The arguments that stand for a value of the types that have texts here.
unfoldable pub texts : {D : Type 0} → Value D → List Str
unfolding numeral
texts (char_value c) = (c ∷ []) ∷ []
texts (int_value n) = numeral n [] ∷ []
texts (string_value s) = s ∷ []
texts (ints_value ns) = map (λ n. numeral n []) ns
texts (strings_value ss) = ss
texts _ = []

-- An element of a vector: its text does not begin with a dash, so that a number is not negative.
abbrev pub IsElement : {A : Type 0} → (Str → Option A) → (A → Str) → A → Type 0
IsElement read text a = (read (text a) ≡ some a) × (is_dashed (text a) ≡ false)

abbrev pub IsNatural : ℤ → Type 0
IsNatural (pos n) = n < 2 ^ 31
IsNatural (negsuc n) = ⊥

abbrev pub NotDashed : Str → Type 0
NotDashed s = is_dashed s ≡ false

abbrev pub NotEmpty : {A : Type 0} → List A → Type 0
NotEmpty [] = ⊥
NotEmpty (a ∷ xs) = Unit

-- A value that its texts give, with these arguments behind them.
abbrev pub IsText : {D : Type 0} → Value D → List Str → Type 0
IsText (char_value c) rest = Unit
IsText (int_value n) rest = IsInt n
IsText (string_value s) rest = Unit
IsText (ints_value ns) rest = NotEmpty ns × All IsNatural ns × IsEnd rest
IsText (strings_value ss) rest = NotEmpty ss × All NotDashed ss × IsEnd rest
IsText _ rest = ⊥

parse_elements_end :
    {A : Type 0} (read : Str → Option A) (value : List A) (rest : List Str)
    → IsEnd rest
    → parse_elements read value rest ≡ (true, value, rest)
unfolding parse_elements
parse_elements_end read value [] h = refl
parse_elements_end read value (str ∷ rest) h = rw (parse_elements, h) refl

parse_elements-texts :
    {A : Type 0} (read : Str → Option A) (text : A → Str) (value xs : List A) (rest : List Str)
    → All (IsElement read text) xs
    → IsEnd rest
    → parse_elements read value (map text xs ++ rest) ≡ (true, value ++ xs, rest)
unfolding parse_elements
parse_elements-texts read text value [] rest h e =
    parse_elements_end read value rest e ∙ ap (λ v. (true, v, rest)) (sym (append-nil value))
parse_elements-texts read text value (a ∷ xs) rest ((there, dash), hs) e =
    rw (parse_elements, dash, there)
      (parse_elements-texts read text (value ++ (a ∷ [])) xs rest hs e
        ∙ ap (λ v. (true, v, rest)) (append_assoc value (a ∷ []) xs))

parse_vector-texts :
    {A : Type 0} (read : Str → Option A) (text : A → Str) (value xs : List A) (rest : List Str)
    → NotEmpty xs
    → All (IsElement read text) xs
    → IsEnd rest
    → parse_vector read value (map text xs ++ rest) ≡ (true, xs, rest)
unfolding parse_vector
parse_vector-texts read text value [] rest n h e = absurd n
parse_vector-texts read text value (a ∷ xs) rest n h e =
    parse_elements-texts read text [] (a ∷ xs) rest h e

natural-IsElement : (n : ℤ) → IsNatural n → IsElement stoi (λ n. numeral n []) n
unfolding numeral
natural-IsElement (pos n) h =
    let (c, cs, front, low, high) = digits-HasDigit n n [] in
    (stoi-numeral (pos n) [] h refl, ap is_dashed front ∙ ground (arith, low))
natural-IsElement (negsuc n) h = absurd h

All-naturals : (ns : List ℤ) → All IsNatural ns → All (IsElement stoi (λ n. numeral n [])) ns
All-naturals [] h = tt
All-naturals (n ∷ ns) (h, hs) = (natural-IsElement n h, All-naturals ns hs)

All-strings : (ss : List Str) → All NotDashed ss → All (IsElement read_string (λ s. s)) ss
All-strings [] h = tt
All-strings (s ∷ ss) (h, hs) = ((refl, h), All-strings ss hs)

map_same : (ss : List Str) → map (λ s. s) ss ≡ ss
map_same [] = refl
map_same (s ∷ ss) = ap (◌∷◌ s) (map_same ss)

pub parse_value-texts :
    {D : Type 0} (stof : Str → Option D) (old v : Value D) (rest : List Str)
    → index old ≡ index v
    → IsText v rest
    → parse_value stof old (texts v ++ rest) ≡ (true, v, rest)
unfolding parse_value parse_one texts index
parse_value-texts stof (char_value c') (char_value c) rest same h = refl
parse_value-texts stof (int_value m) (int_value n) rest same h =
    rw (parse_one, stoi-numeral n [] h refl) refl
parse_value-texts stof (string_value s') (string_value s) rest same h = refl
parse_value-texts stof (ints_value ms) (ints_value ns) rest same (n, h, e) =
    ap (with_value ints_value)
      (parse_vector-texts stoi (λ n. numeral n []) ms ns rest n (All-naturals ns h) e)
parse_value-texts stof (strings_value ss') (strings_value ss) rest same (n, h, e) =
    ap (λ ts. with_value strings_value (parse_vector read_string ss' (ts ++ rest)))
      (sym (map_same ss))
    ∙ ap (with_value strings_value)
        (parse_vector-texts read_string (λ s. s) ss' ss rest n (All-strings ss h) e)
parse_value-texts stof _ _ rest same h = absurd (ground (arith, same, h))

-- A value of one argument.
abbrev pub IsSingle : {D : Type 0} → Value D → Type 0
IsSingle (char_value c) = Unit
IsSingle (int_value n) = Unit
IsSingle (string_value s) = Unit
IsSingle _ = ⊥

pub IsText-end :
    {D : Type 0} (v : Value D) (rest : List Str) → IsText v [] → IsEnd rest → IsText v rest
IsText-end (ints_value ns) rest (n, h, e) g = (n, h, g)
IsText-end (strings_value ss) rest (n, h, e) g = (n, h, g)
IsText-end (char_value c) rest h g = h
IsText-end (int_value n) rest h g = h
IsText-end (string_value s) rest h g = h
IsText-end _ rest h g = absurd h

pub IsText-single :
    {D : Type 0} (v : Value D) (rest : List Str) → IsText v [] → IsSingle v → IsText v rest
IsText-single (char_value c) rest h g = h
IsText-single (int_value n) rest h g = h
IsText-single (string_value s) rest h g = h
IsText-single _ rest h g = absurd g

pub length_single : {D : Type 0} (v : Value D) → IsSingle v → length (texts v) ≡ 1
unfolding texts
length_single (char_value c) g = refl
length_single (int_value n) g = refl
length_single (string_value s) g = refl
length_single _ g = absurd g
