-- ===== src/Util/Log/Written.antt =====
-- What a Log writes (include/rix/util/log.hpp), over stream buffers that do not fail.
use rob320_p.Base.{
  ℕ, suc, ◌≡◌, List, [], ◌∷◌, ◌++◌, replicate, Bool, true, false, refl, ltb, ◌==◌, if◌then◌else◌,
  Bool-cases, inl, inr,
}
use rob320_p.Util.ArgumentValues.{Str}
use rob320_p.Util.Log.{
  Host, Level, Log, level_number, init, open_log, dir_name, debug, info, warn, error, fatal,
}

-- A buffer takes every character at its end, and nothing else changes what the buffers hold.
pub record IsReliable (h : Host) : Type 0 where
  pub content : h.State → ℕ → Str
  pub sputc_ok : (c target : ℕ) (s : h.State) → (h.sputc c target s).0 ≡ true
  pub content-sputc :
      (c target i : ℕ) (s : h.State)
      → content (h.sputc c target s).1 i
        ≡ (if i == target then content s i ++ (c ∷ []) else content s i)
  pub content-now : (i : ℕ) (s : h.State) → content (h.now s).1 i ≡ content s i

-- How often a buffer is among the targets.
unfoldable pub occurrences : ℕ → List ℕ → ℕ
occurrences i [] = 0
occurrences i (t ∷ ts) = let rest = occurrences i ts in if i == t then suc rest else rest

-- A text with each of its characters `n` times.
unfoldable pub copies : ℕ → Str → Str
copies n [] = []
copies n (c ∷ cs) = replicate n c ++ copies n cs

-- "[DEBUG] " with its escapes for bold type, the colour and back, in 21 characters.
abbrev pub level_text : Level → Str
level_text debug =
    b'[' ∷ 27 ∷ b'[' ∷ b'1' ∷ b'm' ∷ 27 ∷ b'[' ∷ b'3' ∷ b'6' ∷ b'm' ∷ b'D' ∷ b'E' ∷ b'B' ∷ b'U'
    ∷ b'G' ∷ 27 ∷ b'[' ∷ b'0' ∷ b'm' ∷ b']' ∷ b' ' ∷ []
level_text info =
    b'[' ∷ 27 ∷ b'[' ∷ b'1' ∷ b'm' ∷ 27 ∷ b'[' ∷ b'3' ∷ b'2' ∷ b'm' ∷ b'I' ∷ b'N' ∷ b'F' ∷ b'O' ∷ 27
    ∷ b'[' ∷ b'0' ∷ b'm' ∷ b']' ∷ b' ' ∷ b' ' ∷ []
level_text warn =
    b'[' ∷ 27 ∷ b'[' ∷ b'1' ∷ b'm' ∷ 27 ∷ b'[' ∷ b'3' ∷ b'3' ∷ b'm' ∷ b'W' ∷ b'A' ∷ b'R' ∷ b'N' ∷ 27
    ∷ b'[' ∷ b'0' ∷ b'm' ∷ b']' ∷ b' ' ∷ b' ' ∷ []
level_text error =
    b'[' ∷ 27 ∷ b'[' ∷ b'1' ∷ b'm' ∷ 27 ∷ b'[' ∷ b'3' ∷ b'1' ∷ b'm' ∷ b'E' ∷ b'R' ∷ b'R' ∷ b'O'
    ∷ b'R' ∷ 27 ∷ b'[' ∷ b'0' ∷ b'm' ∷ b']' ∷ b' ' ∷ []
level_text fatal =
    b'[' ∷ 27 ∷ b'[' ∷ b'1' ∷ b'm' ∷ 27 ∷ b'[' ∷ b'3' ∷ b'5' ∷ b'm' ∷ b'F' ∷ b'A' ∷ b'T' ∷ b'A'
    ∷ b'L' ∷ 27 ∷ b'[' ∷ b'0' ∷ b'm' ∷ b']' ∷ b' ' ∷ []

-- "[name] " with its escapes, if the log has its name.
abbrev pub name_text : Bool → Str → Str
name_text true name =
    (b'[' ∷ 27 ∷ b'[' ∷ b'1' ∷ b'm' ∷ name) ++ (27 ∷ b'[' ∷ b'2' ∷ b'2' ∷ b'm' ∷ b']' ∷ b' ' ∷ [])
name_text false name = []

-- "[date] ", the level and the name.
abbrev pub header_text : Level → Str → Log → Str
header_text level date l =
    (91 ∷ date) ++ (93 ∷ 32 ∷ (level_text level ++ name_text l.is_init l.name))

-- What an insertion adds to the text of a buffer.
abbrev pub logged : (h : Host) → ℕ → Level → Str → Log → h.State → Str
logged h limit level val l s =
    if ltb (level_number level) limit then [] else header_text level (h.date (h.now s).0) l ++ val

module _ (h : Host) (r : IsReliable h) where
  open h use {State}
  open r use {content}

  -- What an insertion into a stream that has not failed leaves.
  Inserted : Level → Str → Log → State → Log × State → Type 0
  Inserted level text l s (l', s') =
      (l'.good (level_number level) ≡ true)
      × (l'.targets ≡ l.targets)
      × ((i : ℕ) → content s' i ≡ content s i ++ copies (occurrences i l.targets) text)

-- After the first init the log has its name, and every later init changes neither the log nor the
-- files, whether or not the log file could be opened.
init_once :
    (h : Host) (name other : Str) (to_file again : Bool) (l : Log) (s : h.State)
    → l.is_init ≡ false
    → ((init h name to_file (l, s)).0.name ≡ name)
      × (init h other again (init h name to_file (l, s)) ≡ init h name to_file (l, s))
unfolding init open_log
init_once h name other to_file again l s new = elim (Bool-cases to_file) [
  | inr stdout_only ↦ rw (init, new, stdout_only) (refl, refl)
  | inl file ↦ elim (Bool-cases (h.stat (dir_name h s) s)) [
    | inl there ↦ rw (init, new, file, there) (refl, refl)
    | inr missing ↦ elim (Bool-cases (h.make_dir (dir_name h s) s).0) [
      | inl made ↦ rw (init, new, file, missing, made) (refl, refl)
      | inr refused ↦ rw (init, new, file, missing, refused) (refl, refl)
    ]
  ]
]
