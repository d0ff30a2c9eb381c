-- ===== src/Util/ArgumentParser/Keys.antt =====
-- The names and the kinds of the arguments of an ArgumentParser (src/rix/util/argument_parser.cpp).
use rob320_p.Base.{
  ◌⊎◌, ◌≡◌, ◌≤◌, List, [], ◌∷◌, ◌++◌, length, Bool, true, false, Option, none, some, refl, arith,
  All, Bool-cases, Option-cases, inl, inr, sym, ap, ◌∙◌,
}
use rob320_p.Base.Dict.{char_key, string_key, lookup, lookup-insert}
use rob320_p.Util.ArgumentValues.{
  Str, Kind, Value, index, parse_value, parse_one, parse_vector, parse_elements, is_dashed,
  bool_value, char_value, int_value, double_value, read_string, string_value, ints_value,
  doubles_value, strings_value, Parsed,
}
use rob320_p.Util.ArgumentParser.{
  Reals, Arg, ArgumentParser, Assigned, missing, failed, assigned, set_value, store, parse_arg,
}

-- The rest of argv is no longer than argv.
parse_one-rest :
    {A : Type 0} (read : Str → Option A) (value : A) (argv : List Str)
    → length (parse_one read value argv).2 ≤ length argv
unfolding parse_one
parse_one-rest read value [] = omega arith
parse_one-rest read value (str ∷ argv) = elim (Option-cases (read str)) [
  | inl e ↦ rw (parse_one, e) (omega arith)
  | inr (a, e) ↦ rw (parse_one, e) (omega arith)
]

parse_elements-rest :
    {A : Type 0} (read : Str → Option A) (value : List A) (argv : List Str)
    → length (parse_elements read value argv).2 ≤ length argv
unfolding parse_elements
parse_elements-rest read value [] = omega arith
parse_elements-rest read value (str ∷ argv) = elim (Bool-cases (is_dashed str)) [
  | inl d ↦ rw (parse_elements, d) (omega arith)
  | inr d ↦ elim (Option-cases (read str)) [
    | inl e ↦ rw (parse_elements, d, e) (omega arith)
    | inr (a, e) ↦
        rw (parse_elements, d, e) (omega (arith, parse_elements-rest read (value ++ (a ∷ [])) argv))
  ]
]

parse_vector-rest :
    {A : Type 0} (read : Str → Option A) (value : List A) (argv : List Str)
    → length (parse_vector read value argv).2 ≤ length argv
unfolding parse_vector
parse_vector-rest read value [] = omega arith
parse_vector-rest read value (str ∷ argv) = parse_elements-rest read [] (str ∷ argv)

module _ (r : Reals) where
  open r use {Double, stof}

  pub parse_value-rest :
      (v : Value Double) (argv : List Str) → length (parse_value stof v argv).2 ≤ length argv
  unfolding parse_value
  parse_value-rest (bool_value b) argv = omega arith
  parse_value-rest (char_value c) argv = parse_one-rest _ c argv
  parse_value-rest (int_value n) argv = parse_one-rest _ n argv
  parse_value-rest (double_value x) argv = parse_one-rest _ x argv
  parse_value-rest (string_value s) argv = parse_one-rest read_string s argv
  parse_value-rest (ints_value ns) argv = parse_vector-rest _ ns argv
  parse_value-rest (doubles_value xs) argv = parse_vector-rest _ xs argv
  parse_value-rest (strings_value ss) argv = parse_vector-rest read_string ss argv

  pub index-parse_value :
      (v : Value Double) (argv : List Str) → index (parse_value stof v argv).1 ≡ index v
  unfolding parse_value index
  index-parse_value (bool_value b) argv = refl
  index-parse_value (char_value c) argv = refl
  index-parse_value (int_value n) argv = refl
  index-parse_value (double_value x) argv = refl
  index-parse_value (string_value s) argv = refl
  index-parse_value (ints_value ns) argv = refl
  index-parse_value (doubles_value xs) argv = refl
  index-parse_value (strings_value ss) argv = refl

  abbrev pub arg_kind : Option (Arg r) → Option Kind
  arg_kind none = none
  arg_kind (some arg) = some (index arg.value)

  -- The kind of the argument of a name.
  abbrev pub kind_of : Str → ArgumentParser r → Option Kind
  kind_of name p = arg_kind (lookup name p.args)

  -- The same arguments, of the same kinds.
  pub record SameKeys (p p' : ArgumentParser r) : Type 0 where
    pub same_name : p'.name ≡ p.name
    pub same_description : p'.description ≡ p.description
    pub same_required : p'.required_arg_names ≡ p.required_arg_names
    pub same_short : p'.short_to_long ≡ p.short_to_long
    pub same_kinds : (name : Str) → kind_of name p' ≡ kind_of name p

  pub same_keys : (p : ArgumentParser r) → SameKeys p p
  same_keys p = record {
    same_name = refl;
    same_description = refl;
    same_required = refl;
    same_short = refl;
    same_kinds = λ n. refl;
  }

  pub then_same : (p q s : ArgumentParser r) → SameKeys p q → SameKeys q s → SameKeys p s
  then_same p q s a b = record {
    same_name = b.same_name ∙ a.same_name;
    same_description = b.same_description ∙ a.same_description;
    same_required = b.same_required ∙ a.same_required;
    same_short = b.same_short ∙ a.same_short;
    same_kinds = λ n. b.same_kinds n ∙ a.same_kinds n;
  }

  pub set_value-SameKeys :
      (name : Str) (arg : Arg r) (v : Value Double) (p : ArgumentParser r)
      → lookup name p.args ≡ some arg
      → index v ≡ index arg.value
      → SameKeys p (set_value r name arg v p)
  set_value-SameKeys name arg v p there same = record {
    same_name = refl;
    same_description = refl;
    same_required = refl;
    same_short = refl;
    same_kinds = λ n.
        ap arg_kind (lookup-insert n name (record arg { value = v }) p.args)
        ∙ elim (Bool-cases (string_key.same n name)) [
          | inl e ↦ rw e (
              ap some same
              ∙ sym (
                  ap arg_kind (ap (λ x. lookup x p.args) (string_key.same_sound n name e) ∙ there)))
          | inr e ↦ rw e refl
        ];
  }

  -- What parse_arg leaves has the same keys, and no more arguments.
  abbrev pub Kept : ArgumentParser r → List Str → Assigned r → Type 0
  Kept p argv missing = Unit
  Kept p argv (failed p') = SameKeys p p'
  Kept p argv (assigned p' argv') = SameKeys p p' × (length argv' ≤ length argv)

  store-Kept :
      (name : Str) (p : ArgumentParser r) (argv : List Str) (arg : Arg r)
      → lookup name p.args ≡ some arg
      → Kept p argv (store r name arg (parse_value stof arg.value argv) p)
  store-Kept name p argv arg there =
      let (ok, v, rest) : Parsed (Value Double) = parse_value stof arg.value argv in
      let keys = set_value-SameKeys name arg v p there (index-parse_value arg.value argv) in
      elim (Bool-cases ok) [
        | inl e ↦ rw e (keys, parse_value-rest arg.value argv)
        | inr e ↦ rw e keys
      ]

  pub parse_arg-Kept :
      (name : Str) (p : ArgumentParser r) (argv : List Str) → Kept p argv (parse_arg r name p argv)
  unfolding parse_arg
  parse_arg-Kept name p argv = elim (Option-cases (lookup name p.args)) [
    | inl e ↦ rw (parse_arg, e) tt
    | inr (arg, e) ↦ rw (parse_arg, e) (store-Kept name p argv arg e)
  ]

  abbrev pub IsKnown : ArgumentParser r → Str → Type 0
  IsKnown p name = (k : Kind) × (kind_of name p ≡ some k)

  abbrev pub found : Assigned r → Bool
  found missing = false
  found (failed p) = true
  found (assigned p argv) = true

  found-store :
      (name : Str) (p : ArgumentParser r) (arg : Arg r) (parsed : Parsed (Value Double))
      → found (store r name arg parsed p) ≡ true
  found-store name p arg (true, v, argv) = refl
  found-store name p arg (false, v, argv) = refl

  pub found-parse_arg :
      (name : Str) (p : ArgumentParser r) (argv : List Str)
      → IsKnown p name
      → found (parse_arg r name p argv) ≡ true
  unfolding parse_arg
  found-parse_arg name p argv (k, known) = elim (Option-cases (lookup name p.args)) [
    | inl e ↦ absurd (ground (arith, e, known))
    | inr (arg, e) ↦ rw (parse_arg, e) (found-store name p arg (parse_value stof arg.value argv))
  ]

  pub IsKnown-same :
      (p p' : ArgumentParser r) (names : List Str)
      → SameKeys p p'
      → All (IsKnown p) names
      → All (IsKnown p') names
  IsKnown-same p p' [] same h = tt
  IsKnown-same p p' (name ∷ names) same ((k, h), hs) =
      ((k, same.same_kinds name ∙ h), IsKnown-same p p' names same hs)

  pub Assigned-cases :
      (a : Assigned r)
      → (a ≡ missing)
        ⊎ ((p : ArgumentParser r) × (a ≡ failed p))
        ⊎ ((p : ArgumentParser r) × (argv : List Str) × (a ≡ assigned p argv))
  Assigned-cases missing = inl refl
  Assigned-cases (failed p) = inr (inl (p, refl))
  Assigned-cases (assigned p argv) = inr (inr (p, argv, refl))
