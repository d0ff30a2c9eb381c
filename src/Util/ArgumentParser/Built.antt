-- ===== src/Util/ArgumentParser/Built.antt =====
-- The parsers that a program can build (include/rix/util/argument_parser.hpp), and what holds of them.
use rob320_p.Base.{
  ℕ, suc, ◌≡◌, ◌≤◌, ◌⊎◌, List, [], ◌∷◌, ◌++◌, length, Bool, true, false, some, if◌then◌else◌, refl,
  arith, All, Bool-cases, Option-cases, inl, inr, sym, ap, ◌∙◌, ltb, not, ◌||◌, ◌&&◌, ◌==◌,
}
use mathlib.Core.Path.{subst}
use rob320_p.Base.Dict.{Dict, char_key, string_key, lookup, insert, lookup-insert, lookup-emplace}
use rob320_p.Util.ArgumentValues.{Str, Kind, Value, index, bool_kind}
use rob320_p.Util.ArgumentParser.{
  Reals, Arg, ArgumentParser, construct, make_arg, add, add_made, add_required, add_optional,
  add_short, isalnum, initial, long_name, returned, parse_options, parse, same_kind,
}
use rob320_p.Util.ArgumentParser.Keys.{SameKeys, IsKnown, arg_kind, IsKnown-same}
use rob320_p.Util.ArgumentParser.Returns.{Returns, parse-Returns}

returned_same :
    (r : Reals) {ok ok' : Bool} {p p' : ArgumentParser r} → returned ok p ≡ returned ok' p' → p ≡ p'
returned_same r h = cc

module _ (r : Reals) where
  open r use {Double}

  -- By the constructor, the three ways to add an argument, and parse.
  pub data Built : ArgumentParser r → Type 0 where
    constructed : (name description : Str) → Built (construct r name description)
    added_required :
        {p : ArgumentParser r} (name description : Str) (kind : Kind) (q : ArgumentParser r)
        → Built q
        → add_required r name description kind q ≡ some p
        → Built p
    added_optional :
        {p : ArgumentParser r} (name description : Str) (v : Value Double) (q : ArgumentParser r)
        → Built q
        → add_optional r name description v q ≡ some p
        → Built p
    added_short :
        {p : ArgumentParser r} (name description : Str) (short_name : ℕ) (v : Value Double)
        (q : ArgumentParser r)
        → Built q
        → add_short r name description short_name v q ≡ some p
        → Built p
    parsed :
        {p : ArgumentParser r} (fuel : ℕ) (argv : List Str) (ok : Bool) (q : ArgumentParser r)
        → Built q
        → length argv ≤ fuel
        → parse r fuel q argv ≡ returned ok p
        → Built p

  -- The names of required arguments and of short options are known, the latter of two characters at least.
  pub record IsValid (p : ArgumentParser r) : Type 0 where
    pub required_known : All (IsKnown r p) p.required_arg_names
    pub short_known :
        (c : ℕ) (name : Str)
        → lookup c p.short_to_long ≡ some name
        → IsKnown r p name × (2 ≤ length name)

  kept-IsKnown :
      (arg : Arg r) (p : ArgumentParser r) (name : Str)
      → IsKnown r p name
      → IsKnown r (add r arg p) name
  unfolding add
  kept-IsKnown arg p name (k, h) = elim (Option-cases (lookup name p.args)) [
    | inl e ↦ absurd (ground (arith, e, h))
    | inr (a, e) ↦
        (k, rw (lookup-emplace name arg.name arg p.args, e) (sym (ap (arg_kind r) e) ∙ h))
  ]

  new-IsKnown : (arg : Arg r) (p : ArgumentParser r) → IsKnown r (add r arg p) arg.name
  unfolding add
  new-IsKnown arg p = elim (Option-cases (lookup arg.name p.args)) [
    | inl e ↦ (
      index arg.value,
      rw (lookup-emplace arg.name arg.name arg p.args, e, string_key.same_refl arg.name) refl,
    )
    | inr (a, e) ↦ (index a.value, rw (lookup-emplace arg.name arg.name arg p.args, e) refl)
  ]

  All-IsKnown :
      (arg : Arg r) (p : ArgumentParser r) (names : List Str)
      → All (IsKnown r p) names
      → All (IsKnown r (add r arg p)) names
  All-IsKnown arg p [] h = tt
  All-IsKnown arg p (name ∷ names) (h, hs) = (kept-IsKnown arg p name h, All-IsKnown arg p names hs)

  All-and_one :
      (q : ArgumentParser r) (names : List Str) (name : Str)
      → All (IsKnown r q) names
      → IsKnown r q name
      → All (IsKnown r q) (names ++ (name ∷ []))
  All-and_one q [] name hs h = (h, tt)
  All-and_one q (n ∷ names) name (g, hs) h = (g, All-and_one q names name hs h)

  required_of :
      (q : ArgumentParser r) (names : List Str) (name : Str) (required : Bool)
      → All (IsKnown r q) names
      → IsKnown r q name
      → All (IsKnown r q) (if required then names ++ (name ∷ []) else names)
  required_of q names name true hs h = All-and_one q names name hs h
  required_of q names name false hs h = hs

  -- A short option is an old one or the one that is added.
  short_of :
      (c c' : ℕ) (name name' : Str) (d : Dict ℕ Str) (old : Bool)
      → lookup c (if old then d else insert c' name' d) ≡ some name
      → (lookup c d ≡ some name) ⊎ (name' ≡ name)
  short_of c c' name name' d true h = inl h
  short_of c c' name name' d false h = elim (Bool-cases (char_key.same c c')) [
    | inl e ↦ inr (ground (arith, h, e, lookup-insert c c' name' d))
    | inr e ↦ inl (ground (arith, h, e, lookup-insert c c' name' d))
  ]

  add-IsValid :
      (arg : Arg r) (p : ArgumentParser r) → IsValid p → 2 ≤ length arg.name → IsValid (add r arg p)
  unfolding add
  add-IsValid arg p valid l = record {
    required_known =
        required_of (add r arg p) p.required_arg_names arg.name arg.required
          (All-IsKnown arg p p.required_arg_names valid.required_known) (new-IsKnown arg p);
    short_known = λ c name h.
        elim (short_of c arg.short_name name arg.name p.short_to_long
          (arg.required || arg.short_name == 0) h) [
            | inl e ↦ let (k, l') = valid.short_known c name e in (kept-IsKnown arg p name k, l')
            | inr e ↦
                subst (λ n. IsKnown r (add r arg p) n × (2 ≤ length n)) e (new-IsKnown arg p, l)
          ];
  }

  -- make_arg and add after it.
  made-IsValid :
      (name description : Str) (short_name : ℕ) (v : Value Double) (required : Bool)
      (p q : ArgumentParser r)
      → IsValid q
      → add_made r (make_arg r name description short_name v required) q ≡ some p
      → IsValid p
  unfolding add_made make_arg
  made-IsValid name description short_name v required p q valid h =
      elim (Bool-cases (ltb (length name) 2 || not (isalnum name))) [
        | inl e ↦ absurd (ground (arith, h, e))
        | inr e ↦ elim (Bool-cases (same_kind (index v) bool_kind && required)) [
          | inl f ↦ absurd (ground (arith, h, e, f))
          | inr f ↦
              let arg : Arg r = record {
                name = name;
                description = description;
                value = v;
                required = required;
                short_name = short_name;
              } in
              let same : add r arg q ≡ p = ground (arith, h, e, f) in
              subst IsValid same (add-IsValid arg q valid (ground (arith, e)))
        ]
      ]

  same-IsValid : (p q : ArgumentParser r) → IsValid q → SameKeys r q p → IsValid p
  same-IsValid p q valid same = record {
    required_known =
        subst (All (IsKnown r p)) (sym same.same_required)
          (IsKnown-same r q p q.required_arg_names same valid.required_known);
    short_known = λ c name h.
        let ((k, known), l) = valid.short_known c name (ap (lookup c) (sym same.same_short) ∙ h) in
        ((k, same.same_kinds name ∙ known), l);
  }

  construct-IsValid : (name description : Str) → IsValid (construct r name description)
  unfolding construct lookup
  construct-IsValid name description = record {
    required_known = tt;
    short_known = λ c n h. absurd (ground (arith, h));
  }

  pub Built-IsValid : {p : ArgumentParser r} → Built p → IsValid p
  unfolding add_required add_optional add_short
  Built-IsValid (constructed name description) = construct-IsValid name description
  Built-IsValid (added_required {p} name description kind q b h) =
      made-IsValid name description 0 (initial r kind) true p q (Built-IsValid b) h
  Built-IsValid (added_optional {p} name description v q b h) =
      made-IsValid name description 0 v false p q (Built-IsValid b) h
  Built-IsValid (added_short {p} name description short_name v q b h) =
      made-IsValid name description short_name v false p q (Built-IsValid b) (ground (arith, h))
  Built-IsValid (parsed {p} fuel argv ok q b l h) =
      let valid = Built-IsValid b in
      let (ok', p', e, same) = parse-Returns r fuel q argv valid.required_known l in
      same-IsValid p q valid (subst (SameKeys r q) (returned_same r (sym e ∙ h)) same)

  -- For a parser that was built by its constructor, by adding arguments and by parsing, with as much
  -- fuel as there are arguments, parse returns: it does not throw, whatever the arguments are, and it
  -- leaves the same names, required arguments, short options, known arguments and types of their
  -- values.
  pub Built-Returns :
      (p : ArgumentParser r) (fuel : ℕ) (argv : List Str)
      → Built p
      → length argv ≤ fuel
      → Returns r p (parse r fuel p argv)
  Built-Returns p fuel argv b l = parse-Returns r fuel p argv (Built-IsValid b).required_known l

  -- The long form of an option of two characters at least.
  pub long_name_lem :
      (name : Str) (p : ArgumentParser r)
      → 2 ≤ length name
      → long_name r (45 ∷ 45 ∷ name) p ≡ some name
  unfolding long_name
  long_name_lem [] p l = absurd (omega arith)
  long_name_lem (a ∷ []) p l = absurd (omega arith)
  long_name_lem (a ∷ b ∷ cs) p l = refl

  -- For a parser that was built by its constructor, by adding arguments and by parsing: a short option
  -- does what its long option does, whatever the arguments behind it are.
  pub short_as_long :
      (p : ArgumentParser r) (fuel c : ℕ) (name : Str) (argv : List Str)
      → Built p
      → lookup c p.short_to_long ≡ some name
      → parse_options r (suc fuel) p ((45 ∷ c ∷ []) ∷ argv)
        ≡ parse_options r (suc fuel) p ((45 ∷ 45 ∷ name) ∷ argv)
  unfolding parse_options long_name
  short_as_long p fuel c name argv b h =
      let (known, l) = (Built-IsValid b).short_known c name h in
      rw (parse_options, long_name_lem name p l, h) refl
