-- ===== src/Util/ArgumentParser/Returns.antt =====
-- ArgumentParser::parse returns (src/rix/util/argument_parser.cpp).
use rob320_p.Base.{
  ℕ, zero, suc, ◌≡◌, ◌≤◌, List, [], ◌∷◌, length, Bool, true, false, refl, arith, All, Bool-cases,
  Option-cases, inl, inr, ltb,
}
use mathlib.Core.Path.{subst}
use rob320_p.Base.Dict.{char_key, string_key, lookup}
use rob320_p.Util.ArgumentValues.{Str}
use rob320_p.Util.ArgumentParser.{
  Reals, ArgumentParser, Assigned, missing, failed, assigned, parse_arg, parse_required, long_name,
  Outcome, returned, parse_options, parse_nothing, parse,
}
use rob320_p.Util.ArgumentParser.Keys.{
  SameKeys, same_keys, then_same, Kept, parse_arg-Kept, IsKnown, found, found-parse_arg,
  IsKnown-same, Assigned-cases,
}

module _ (r : Reals) where
  -- The loop over required names that are known does not throw.
  abbrev KeptKnown : ArgumentParser r → List Str → Assigned r → Type 0
  KeptKnown p argv a = (found r a ≡ true) × Kept r p argv a

  later :
      (p q : ArgumentParser r) (argv rest : List Str) (a : Assigned r)
      → SameKeys r p q
      → length rest ≤ length argv
      → KeptKnown q rest a
      → KeptKnown p argv a
  later p q argv rest missing same le (f, k) = (f, k)
  later p q argv rest (failed s) same le (f, k) = (f, then_same r p q s same k)
  later p q argv rest (assigned s argv') same le (f, (k, l)) =
      (f, (then_same r p q s same k, omega (arith, le, l)))

  parse_required-Kept :
      (names : List Str) (p : ArgumentParser r) (argv : List Str)
      → All (IsKnown r p) names
      → KeptKnown p argv (parse_required r names p argv)
  unfolding parse_required
  parse_required-Kept [] p argv h = (refl, (same_keys r p, omega arith))
  parse_required-Kept (name ∷ names) p argv (h, hs) =
      let kept = parse_arg-Kept r name p argv in
      elim (Assigned-cases r (parse_arg r name p argv)) [
        | inl e ↦ absurd (ground (arith, e, found-parse_arg r name p argv h))
        | inr (inl (q, e)) ↦ rw (parse_required, e) (refl, subst (Kept r p argv) e kept)
        | inr (inr (q, rest, e)) ↦
            let (same, le) = subst (Kept r p argv) e kept in
            rw (parse_required, e)
              (later p q argv rest (parse_required r names q rest) same le
                (parse_required-Kept names q rest (IsKnown-same r p q names same hs)))
      ]

  -- parse returns, and the arguments are the same as before, of the same kinds.
  abbrev pub Returns : ArgumentParser r → Outcome r → Type 0
  Returns p o = (ok : Bool) × (p' : ArgumentParser r) × (o ≡ returned ok p') × SameKeys r p p'

  parse_options-Returns :
      (fuel : ℕ) (p : ArgumentParser r) (argv : List Str)
      → length argv ≤ fuel
      → Returns p (parse_options r fuel p argv)
  unfolding parse_options
  parse_options-Returns fuel p [] l = (true, p, refl, same_keys r p)
  parse_options-Returns zero p (str ∷ argv) l = absurd (omega (arith, l))
  parse_options-Returns (suc fuel) p (str ∷ argv) l = elim (Option-cases (long_name r str p)) [
    | inl e ↦ rw (parse_options, e) (false, p, refl, same_keys r p)
    | inr (name, e) ↦
        let kept = parse_arg-Kept r name p argv in
        elim (Assigned-cases r (parse_arg r name p argv)) [
          | inl f ↦ rw (parse_options, e, f) (false, p, refl, same_keys r p)
          | inr (inl (q, f)) ↦
              rw (parse_options, e, f) (false, q, refl, subst (Kept r p argv) f kept)
          | inr (inr (q, rest, f)) ↦
              let (same, le) = subst (Kept r p argv) f kept in
              let (ok, p', g, same') = parse_options-Returns fuel q rest (omega (arith, l, le)) in
              rw (parse_options, e, f) (ok, p', g, then_same r p q p' same same')
        ]
  ]

  parse_nothing-Returns :
      (names : List Str) (p : ArgumentParser r)
      → All (IsKnown r p) names
      → Returns p (parse_nothing r names p)
  parse_nothing-Returns [] p h = (true, p, refl, same_keys r p)
  parse_nothing-Returns (name ∷ names) p ((k, known), hs) =
      elim (Option-cases (lookup name p.args)) [
        | inl e ↦ absurd (ground (arith, e, known))
        | inr (arg, e) ↦ rw (parse_nothing, e) (false, p, refl, same_keys r p)
      ]

  pub parse-Returns :
      (fuel : ℕ) (p : ArgumentParser r) (argv : List Str)
      → All (IsKnown r p) p.required_arg_names
      → length argv ≤ fuel
      → Returns p (parse r fuel p argv)
  unfolding parse
  parse-Returns fuel p [] h l = parse_nothing-Returns p.required_arg_names p h
  parse-Returns fuel p (program ∷ argv) h l =
      elim (Bool-cases (ltb (length argv) (length p.required_arg_names))) [
        | inl few ↦ rw (parse, few) (false, p, refl, same_keys r p)
        | inr enough ↦
            let kept = parse_required-Kept p.required_arg_names p argv h in
            elim (Assigned-cases r (parse_required r p.required_arg_names p argv)) [
              | inl e ↦ absurd (ground (arith, e, kept.0))
              | inr (inl (q, e)) ↦
                  rw (parse, enough, e) (false, q, refl, (subst (KeptKnown p argv) e kept).1)
              | inr (inr (q, rest, e)) ↦
                  let (f, (same, le)) = subst (KeptKnown p argv) e kept in
                  let (ok, p', g, same') =
                    parse_options-Returns fuel q rest (omega (arith, l, le)) in
                  rw (parse, enough, e) (ok, p', g, then_same r p q p' same same')
            ]
      ]
