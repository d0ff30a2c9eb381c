-- ===== src/Util/ArgumentParser/Help.antt =====
-- ArgumentParser::help of src/rix/util/argument_parser.cpp, and what it shows.
use rob320_p.Base.{
  ◌≡◌, List, [], ◌∷◌, ◌++◌, true, false, Option, none, some, ◌>>=◌, refl, arith, All, Bool-cases,
  Option-cases, inl, inr, sym, ap, ◌∙◌, append_assoc, append-nil,
}
use mathlib.Core.Path.{subst}
use rob320_p.Base.Dict.{char_key, string_key, lookup}
use rob320_p.Util.ArgumentValues.{Str}
use rob320_p.Util.ArgumentParser.{Reals, Arg, ArgumentParser}
use rob320_p.Util.ArgumentParser.Keys.{IsKnown}
use rob320_p.Util.ArgumentParser.Built.{Built, Built-IsValid}

abbrev usage_title : Str
usage_title = b'U' ∷ b's' ∷ b'a' ∷ b'g' ∷ b'e' ∷ b':' ∷ b' ' ∷ []

-- The text with its line feeds.
abbrev arguments_title : Str
arguments_title =
    10 ∷ 10 ∷ b'A' ∷ b'r' ∷ b'g' ∷ b'u' ∷ b'm' ∷ b'e' ∷ b'n' ∷ b't' ∷ b's' ∷ b':' ∷ 10 ∷ []

abbrev dash : Str
dash = b' ' ∷ b'-' ∷ b' ' ∷ []

module _ (r : Reals) where
  abbrev required_line : Arg r → Str
  required_line arg = (b' ' ∷ b' ' ∷ arg.name) ++ (dash ++ (arg.description ++ (10 ∷ [])))

  -- The name of an option: --name (-c)
  abbrev pub option_name : Arg r → Str
  option_name arg = (b'-' ∷ b'-' ∷ arg.name) ++ (b' ' ∷ b'(' ∷ b'-' ∷ arg.short_name ∷ b')' ∷ [])

  abbrev pub option_line : Arg r → Str
  option_line arg = (b' ' ∷ b' ' ∷ option_name arg) ++ (dash ++ (arg.description ++ (10 ∷ [])))

  -- The loop over required_arg_names_, with usage and description; `none` is the exception of args_.at.
  unfoldable pub required_help : List Str → ArgumentParser r → Str → Str → Option (Str × Str)
  unfolding lookup
  required_help [] p usage description = some (usage, description)
  required_help (name ∷ names) p usage description = elim (lookup name p.args) [
    | none ↦ none
    | some arg ↦
        required_help names p (usage ++ (b' ' ∷ arg.name)) (description ++ required_line arg)
  ]

  -- The loop over args_, with opt_usage and opt_description.
  unfoldable pub optional_help : List (Str × Arg r) → Str → Str → Str × Str
  optional_help [] usage description = (usage, description)
  optional_help ((name, arg) ∷ entries) usage description = elim arg.required [
    | true ↦ optional_help entries usage description
    | false ↦
        optional_help entries (usage ++ ((b' ' ∷ b'[' ∷ option_name arg) ++ (b']' ∷ [])))
          (description ++ option_line arg)
  ]

  -- `entries` are the entries of args_ in the order of the map.
  unfoldable pub help : List (Str × Arg r) → ArgumentParser r → Option Str
  unfolding required_help optional_help
  help entries p =
      required_help p.required_arg_names p (usage_title ++ p.name)
        ((10 ∷ 10 ∷ p.description) ++ arguments_title)
      >>= λ a.
          let (opt_usage, opt_description) = optional_help entries [] [] in
          some (((a.0 ++ opt_usage) ++ a.1) ++ opt_description)

  abbrev pub Contains : Str → Str → Type 0
  Contains part text = (before after : Str) × (text ≡ before ++ (part ++ after))

  Contains-end : (text part : Str) → Contains part (text ++ part)
  Contains-end text part = (text, [], ap (◌++◌ text) (sym (append-nil part)))

  Contains-before : (part text more : Str) → Contains part text → Contains part (text ++ more)
  Contains-before part text more (before, after, e) = (
    before,
    after ++ more,
    ap (λ x. x ++ more) e
        ∙ append_assoc before (part ++ after) more
        ∙ ap (◌++◌ before) (append_assoc part after more),
  )

  Contains-after : (part text more : Str) → Contains part text → Contains part (more ++ text)
  Contains-after part text more (before, after, e) =
      (more ++ before, after, ap (◌++◌ more) e ∙ sym (append_assoc more before (part ++ after)))

  -- "  name - description", and a line feed.
  abbrev pub required_text : Arg r → Str
  required_text arg = (32 ∷ 32 ∷ arg.name) ++ (32 ∷ 45 ∷ 32 ∷ (arg.description ++ (10 ∷ [])))

  -- "  --name (-c) - description", and a line feed.
  abbrev pub option_text : Arg r → Str
  option_text arg =
      (32 ∷ 32 ∷ 45 ∷ 45 ∷ arg.name)
      ++ (32 ∷ 40 ∷ 45 ∷ arg.short_name ∷ 41 ∷ 32 ∷ 45 ∷ 32 ∷ (arg.description ++ (10 ∷ [])))

  -- " [--name (-c)]"
  abbrev pub usage_text : Arg r → Str
  usage_text arg = (32 ∷ 91 ∷ 45 ∷ 45 ∷ arg.name) ++ (32 ∷ 40 ∷ 45 ∷ arg.short_name ∷ 41 ∷ 93 ∷ [])

  option_line_lem : (arg : Arg r) → option_line arg ≡ option_text arg
  option_line_lem arg = append_assoc (32 ∷ 32 ∷ 45 ∷ 45 ∷ arg.name) _ _

  option_usage_lem : (arg : Arg r) → (b' ' ∷ b'[' ∷ option_name arg) ++ (b']' ∷ []) ≡ usage_text arg
  option_usage_lem arg = append_assoc (32 ∷ 91 ∷ 45 ∷ 45 ∷ arg.name) _ _

  -- What an argument of the required ones shows in the text.
  abbrev pub ShowsRequired : ArgumentParser r → Str → Str → Type 0
  ShowsRequired p text name =
      (arg : Arg r) × (lookup name p.args ≡ some arg) × Contains (required_text arg) text

  -- An option shows how to use it, and its line.
  abbrev ShowsIn : Str → Str → Str × Arg r → Type 0
  ShowsIn usage lines (name, arg) =
      arg.required ≡ false → Contains (usage_text arg) usage × Contains (option_text arg) lines

  abbrev pub ShowsOption : Str → Str × Arg r → Type 0
  ShowsOption text entry = ShowsIn text text entry

  All-ShowsRequired :
      (p : ArgumentParser r) (text text' : Str) (names : List Str)
      → ((part : Str) → Contains part text → Contains part text')
      → All (ShowsRequired p text) names
      → All (ShowsRequired p text') names
  All-ShowsRequired p text text' [] f h = tt
  All-ShowsRequired p text text' (name ∷ names) f ((arg, e, c), hs) =
      ((arg, e, f (required_text arg) c), All-ShowsRequired p text text' names f hs)

  All-ShowsOption :
      (usage lines text : Str) (entries : List (Str × Arg r))
      → ((part : Str) → Contains part usage → Contains part text)
      → ((part : Str) → Contains part lines → Contains part text)
      → All (ShowsIn usage lines) entries
      → All (ShowsOption text) entries
  All-ShowsOption usage lines text [] f g h = tt
  All-ShowsOption usage lines text ((name, arg) ∷ entries) f g (c, hs) = (
    λ o. (f (usage_text arg) (c o).0, g (option_text arg) (c o).1),
    All-ShowsOption usage lines text entries f g hs,
  )

  required_help-Shows :
      (names : List Str) (p : ArgumentParser r) (usage description : Str)
      → All (IsKnown r p) names
      → (usage' more : Str) × (required_help names p usage description
          ≡ some (usage', description ++ more))
        × All (ShowsRequired p (description ++ more)) names
  unfolding required_help
  required_help-Shows [] p usage description h =
      (usage, [], ap (λ d. some (usage, d)) (sym (append-nil description)), tt)
  required_help-Shows (name ∷ names) p usage description ((k, known), hs) =
      elim (Option-cases (lookup name p.args)) [
        | inl e ↦ absurd (ground (arith, e, known))
        | inr (arg, e) ↦
            let line : Str = required_line arg in
            let (usage', more, f, shown) =
              required_help-Shows names p (usage ++ (b' ' ∷ arg.name)) (description ++ line) hs in
            let same : (description ++ line) ++ more ≡ description ++ (line ++ more) =
              append_assoc description line more in
            (
              usage',
              line ++ more,
              rw (required_help, e) (f ∙ ap (λ d. some (usage', d)) same),
              (
                (arg, e, (description, more, refl)),
                subst (λ d. All (ShowsRequired p d) names) same shown,
              ),
            )
      ]

  optional_help-Shows :
      (entries : List (Str × Arg r)) (usage description : Str)
      → (uses more : Str) × ((optional_help entries usage description).0 ≡ usage ++ uses)
        × ((optional_help entries usage description).1 ≡ description ++ more)
        × All (ShowsIn (usage ++ uses) (description ++ more)) entries
  unfolding optional_help
  optional_help-Shows [] usage description =
      ([], [], sym (append-nil usage), sym (append-nil description), tt)
  optional_help-Shows ((name, arg) ∷ entries) usage description = elim (Bool-cases arg.required) [
    | inl required ↦
        let (uses, more, e, f, shown) = optional_help-Shows entries usage description in
        (
          uses,
          more,
          rw (optional_help, required) e,
          rw (optional_help, required) f,
          (λ o. absurd (ground (arith, required, o)), shown),
        )
    | inr optional ↦
        let shown_use : Str = (b' ' ∷ b'[' ∷ option_name arg) ++ (b']' ∷ []) in
        let line : Str = option_line arg in
        let (uses, more, e, f, shown) =
          optional_help-Shows entries (usage ++ shown_use) (description ++ line) in
        let same : (usage ++ shown_use) ++ uses ≡ usage ++ (shown_use ++ uses) =
          append_assoc usage shown_use uses in
        let same' : (description ++ line) ++ more ≡ description ++ (line ++ more) =
          append_assoc description line more in
        (
          shown_use ++ uses,
          line ++ more,
          rw (optional_help, optional) (e ∙ same),
          rw (optional_help, optional) (f ∙ same'),
          (
            λ o. (
              (usage, uses, ap (λ x. usage ++ (x ++ uses)) (option_usage_lem arg)),
              (description, more, ap (λ x. description ++ (x ++ more)) (option_line_lem arg)),
            ),
            subst (λ x. All (ShowsIn x (description ++ (line ++ more))) entries) same
                (subst (λ x. All (ShowsIn ((usage ++ shown_use) ++ uses) x) entries) same' shown),
          ),
        )
  ]

  -- For a parser that was built by its constructor, by adding arguments and by parsing, help throws no
  -- exception, whatever the order in which the map gives its entries: its text holds, for every
  -- required argument, two spaces, its name, a dash between spaces, its description and a line feed;
  -- and for every option among the entries, its name behind two dashes with its short name behind a
  -- dash in parentheses, both in brackets behind a space, and behind two spaces with a dash between
  -- spaces, its description and a line feed.
  pub help-Shows :
      (p : ArgumentParser r) (entries : List (Str × Arg r))
      → Built r p
      → (text : Str) × (help entries p ≡ some text)
        × All (ShowsRequired p text) p.required_arg_names
        × All (ShowsOption text) entries
  unfolding help
  help-Shows p entries b =
      let start : Str = (10 ∷ 10 ∷ p.description) ++ arguments_title in
      let (usage, more, e, required) =
        required_help-Shows p.required_arg_names p (usage_title ++ p.name) start
          (Built-IsValid r b).required_known in
      let (uses, lines, f, g, options) = optional_help-Shows entries [] [] in
      let (opt_usage, opt_lines) : Str × Str = optional_help entries [] [] in
      let head : Str = (usage ++ opt_usage) ++ (start ++ more) in
      (
        head ++ opt_lines,
        rw (help, e) refl,
        All-ShowsRequired p (start ++ more) (head ++ opt_lines) p.required_arg_names
            (λ part c.
              Contains-before part head opt_lines
                (Contains-after part (start ++ more) (usage ++ opt_usage) c))
            required,
        All-ShowsOption uses lines (head ++ opt_lines) entries
            (λ part c. Contains-before part head opt_lines (
              Contains-before part (usage ++ opt_usage) (start ++ more)
                (Contains-after part opt_usage usage (subst (Contains part) (sym f) c))))
            (λ part c. Contains-after part opt_lines head (subst (Contains part) (sym g) c))
            options,
      )
