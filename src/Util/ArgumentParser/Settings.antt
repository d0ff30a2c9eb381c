-- ===== src/Util/ArgumentParser/Settings.antt =====
-- A command line that is written from settings, through ArgumentParser::parse and get.
use rob320_p.Base.{
  ℕ, zero, suc, ◌+◌, ◌≡◌, ◌≤◌, List, [], ◌∷◌, ◌++◌, length, map, Bool, true, false, Option, none,
  some, if◌then◌else◌, refl, arith, All, Option-cases, inl, inr, sym, ap, ◌∙◌, ltb, le→ltb,
  length-append,
}
use rob320_p.Base.Dict.{char_key, string_key, lookup, lookup-insert}
use rob320_p.Util.ArgumentValues.{Str, Kind, Value, index}
use rob320_p.Util.ArgumentParser.{
  Reals, Arg, ArgumentParser, Assigned, assigned, set_value, parse_arg, parse_required, returned,
  parse_options, parse, get, same_kind,
}
use rob320_p.Util.ArgumentParser.Keys.{SameKeys, same_keys, then_same, kind_of, set_value-SameKeys}
use rob320_p.Util.ArgumentParser.Built.{long_name_lem}
use rob320_p.Util.ArgumentParser.Texts.{
  IsEnd, texts, IsText, parse_value-texts, IsSingle, IsText-end, IsText-single, length_single,
}

module _ (r : Reals) where
  open r use {Double, stof}

  abbrev pub Setting : Type 0
  Setting = Str × Value Double

  -- Options by their long names.
  unfoldable pub options : List Setting → List Str
  unfolding texts
  options [] = []
  options ((name, v) ∷ settings) = (45 ∷ 45 ∷ name) ∷ (texts v ++ options settings)

  options-IsEnd : (settings : List Setting) → IsEnd (options settings)
  unfolding options
  options-IsEnd [] = tt
  options-IsEnd (setting ∷ settings) = refl

  -- The values of required arguments, in front of other arguments.
  unfoldable pub positional : List Setting → List Str → List Str
  unfolding texts
  positional [] rest = rest
  positional ((name, v) ∷ settings) rest = texts v ++ positional settings rest

  -- The last setting of a name.
  unfoldable pub chosen : Str → List Setting → Option (Value Double) → Option (Value Double)
  chosen n [] default_value = default_value
  chosen n ((name, v) ∷ settings) default_value =
      chosen n settings (if string_key.same n name then some v else default_value)

  abbrev arg_value : Option (Arg r) → Option (Value Double)
  arg_value none = none
  arg_value (some arg) = some arg.value

  abbrev pub value_of : Str → ArgumentParser r → Option (Value Double)
  value_of name p = arg_value (lookup name p.args)

  value_if :
      (b : Bool) (x y : Option (Arg r))
      → arg_value (if b then x else y) ≡ (if b then arg_value x else arg_value y)
  value_if true x y = refl
  value_if false x y = refl

  -- What parse_arg makes of the texts of a value of the argument's kind.
  Takes : Str → Value Double → ArgumentParser r → List Str → Assigned r → Type 0
  Takes name v p rest a =
      (p' : ArgumentParser r) × (a ≡ assigned p' rest)
      × SameKeys r p p'
      × ((n : Str) → value_of n p' ≡ (if string_key.same n name then some v else value_of n p))

  parse_arg-Takes :
      (name : Str) (v : Value Double) (p : ArgumentParser r) (rest : List Str)
      → kind_of r name p ≡ some (index v)
      → IsText v rest
      → Takes name v p rest (parse_arg r name p (texts v ++ rest))
  unfolding parse_arg Takes
  parse_arg-Takes name v p rest known fits = elim (Option-cases (lookup name p.args)) [
    | inl e ↦ absurd (ground (arith, e, known))
    | inr (arg, e) ↦
        let kind : index arg.value ≡ index v = ground (arith, e, known) in
        (
          set_value r name arg v p,
          rw (parse_arg, e, parse_value-texts stof arg.value v rest kind fits) refl,
          set_value-SameKeys r name arg v p e (sym kind),
          λ n.
              ap arg_value (lookup-insert n name (record arg { value = v }) p.args)
              ∙ value_if (string_key.same n name) _ _,
        )
  ]

  -- A setting of an option that the parser knows, of its kind.
  abbrev pub IsOption : ArgumentParser r → Setting → Type 0
  IsOption p (name, v) = (kind_of r name p ≡ some (index v)) × (2 ≤ length name) × IsText v []

  abbrev pub IsPositional : ArgumentParser r → Setting → Type 0
  IsPositional p (name, v) = (kind_of r name p ≡ some (index v)) × IsSingle v × IsText v []

  IsOption-same :
      (p q : ArgumentParser r) (ss : List Setting)
      → SameKeys r p q
      → All (IsOption p) ss
      → All (IsOption q) ss
  IsOption-same p q [] same h = tt
  IsOption-same p q ((name, v) ∷ ss) same ((k, h, t), hs) =
      ((same.same_kinds name ∙ k, h, t), IsOption-same p q ss same hs)

  IsPositional-same :
      (p q : ArgumentParser r) (ss : List Setting)
      → SameKeys r p q
      → All (IsPositional p) ss
      → All (IsPositional q) ss
  IsPositional-same p q [] same h = tt
  IsPositional-same p q ((name, v) ∷ ss) same ((k, h, t), hs) =
      ((same.same_kinds name ∙ k, h, t), IsPositional-same p q ss same hs)

  abbrev Chooses : List Setting → ArgumentParser r → ArgumentParser r → Type 0
  Chooses ss p p' = (n : Str) → value_of n p' ≡ chosen n ss (value_of n p)

  parse_options-chosen :
      (fuel : ℕ) (ss : List Setting) (p : ArgumentParser r)
      → length (options ss) ≤ fuel
      → All (IsOption p) ss
      → (p' : ArgumentParser r) × (parse_options r fuel p (options ss) ≡ returned true p')
        × Chooses ss p p'
  unfolding parse_options options chosen Takes
  parse_options-chosen fuel [] p l h = (p, refl, λ n. refl)
  parse_options-chosen zero (s ∷ ss) p l h = absurd (omega (arith, l))
  parse_options-chosen (suc fuel) ((name, v) ∷ ss) p l ((kind, long, fits), hs) =
      let (q, e, same, values) =
        parse_arg-Takes name v p (options ss) kind
          (IsText-end v (options ss) fits (options-IsEnd ss)) in
      let short : length (options ss) ≤ fuel =
        omega (arith, l, length-append (texts v) (options ss)) in
      let (p', f, values') = parse_options-chosen fuel ss q short (IsOption-same p q ss same hs) in
      (
        p',
        rw (parse_options, long_name_lem r name p long, e) f,
        λ n. values' n ∙ ap (chosen n ss) (values n),
      )

  parse_required-chosen :
      (ss : List Setting) (p : ArgumentParser r) (rest : List Str)
      → All (IsPositional p) ss
      → (p' : ArgumentParser r) × (parse_required r (map (λ s. s.0) ss) p (positional ss rest)
          ≡ assigned p' rest)
        × SameKeys r p p'
        × Chooses ss p p'
  unfolding parse_required positional chosen Takes
  parse_required-chosen [] p rest h = (p, refl, same_keys r p, λ n. refl)
  parse_required-chosen ((name, v) ∷ ss) p rest ((kind, single, fits), hs) =
      let (q, e, same, values) =
        parse_arg-Takes name v p (positional ss rest) kind
          (IsText-single v (positional ss rest) fits single) in
      let (p', f, same', values') =
        parse_required-chosen ss q rest (IsPositional-same p q ss same hs) in
      (
        p',
        rw (parse_required, e) f,
        then_same r p q p' same same',
        λ n. values' n ∙ ap (chosen n ss) (values n),
      )

  length-positional :
      (p : ArgumentParser r) (ss : List Setting) (rest : List Str)
      → All (IsPositional p) ss
      → length (map (λ s. s.0) ss) + length rest ≤ length (positional ss rest)
  unfolding positional
  length-positional p [] rest h = omega arith
  length-positional p ((name, v) ∷ ss) rest ((kind, single, fits), hs) = omega (
    arith,
    length-positional p ss rest hs,
    length_single v single,
    length-append (texts v) (positional ss rest),
  )

  -- What get makes of the value of an argument.
  unfoldable pub of_kind : Kind → Option (Value Double) → Option (Value Double)
  of_kind kind none = none
  of_kind kind (some v) = if same_kind (index v) kind then some v else none

  get-value_of :
      (kind : Kind) (n : Str) (p : ArgumentParser r) → get r kind n p ≡ of_kind kind (value_of n p)
  unfolding get of_kind
  get-value_of kind n p = elim (Option-cases (lookup n p.args)) [
    | inl e ↦ rw (get, e) refl
    | inr (arg, e) ↦ rw (get, e) refl
  ]

  -- A command line written from settings: if the required settings name the required arguments in order
  -- and are each one argument of the right type (char, int or string), the others are options that are
  -- known, of the right type (also vectors, not empty, of int that are not negative or of strings
  -- without a dash in front), and there is as much fuel as there are arguments, then parse returns
  -- true, and get gives every argument its last setting, or what it had.
  pub parse-get :
      (p : ArgumentParser r) (fuel : ℕ) (program : Str) (required settings : List Setting)
      → map (λ s. s.0) required ≡ p.required_arg_names
      → All (IsPositional p) required
      → All (IsOption p) settings
      → length (positional required (options settings)) ≤ fuel
      → (p' : ArgumentParser r) × (parse r fuel p (program ∷ positional required (options settings))
          ≡ returned true p')
        × ((kind : Kind) (n : Str)
            → get r kind n p' ≡ of_kind kind (chosen n settings (chosen n required (value_of n p))))
  unfolding parse
  parse-get p fuel program required settings names hr ho l =
      let (q, e, same, values) = parse_required-chosen required p (options settings) hr in
      let short : length (options settings) ≤ fuel =
        omega (arith, l, length-positional p required (options settings) hr) in
      let (p', f, values') =
        parse_options-chosen fuel settings q short (IsOption-same p q settings same ho) in
      let e' : parse_required r p.required_arg_names p (positional required (options settings))
          ≡ assigned q (options settings) =
        ap (λ ns. parse_required r ns p (positional required (options settings))) (sym names) ∙ e in
      let enough : ltb (length (positional required (options settings)))
            (length p.required_arg_names)
          ≡ false =
        ap (λ (ns : List Str). ltb (length (positional required (options settings))) (length ns))
          (sym names)
        ∙ le→ltb _ _ (omega (arith, length-positional p required (options settings) hr)) in
      (
        p',
        rw (parse, enough, e') f,
        λ kind n.
            get-value_of kind n p'
            ∙ ap (of_kind kind) (values' n ∙ ap (chosen n settings) (values n)),
      )
