-- ===== src/Util/Log.antt =====
-- class Log of include/rix/util/log.hpp, with its TeeBuffer. What a stream inserts is a text here.
pub mod Written
use rob320_p.Base.{
  ℕ, ◌+◌, ◌-◌, List, [], ◌∷◌, ◌++◌, length, replicate, Bool, true, false, Option, none, some, not,
  ltb, if◌then◌else◌,
}
use rob320_p.Base.Int.{ℤ}
use rob320_p.Ipc.Ownership.{update}
use rob320_p.Util.ArgumentValues.{Str}
use rob320_p.Util.Time.{Time}

-- The stream buffers (by number), the clock and the file system. sputc and pubsync say if they succeed, stat if
-- there is a file, make_dir if it succeeds; `date` is Time::to_string, `decimal` std::to_string.
pub record Host : Type 1 where
  pub State : Type 0
  pub sputc : ℕ → ℕ → State → Bool × State
  pub pubsync : ℕ → State → Bool × State
  pub now : State → Time × State
  pub getenv_home : State → Option Str
  pub pw_dir : State → Str
  pub stat : Str → State → Bool
  pub make_dir : Str → State → Bool × State
  pub open_file : Str → State → State
  pub log_file : ℕ
  pub date : Time → Str
  pub decimal : ℤ → Str

pub data Level : Type 0 where
  debug info warn error fatal : Level

abbrev pub level_number : Level → ℕ
level_number debug = 0
level_number info = 1
level_number warn = 2
level_number error = 3
level_number fatal = 4

abbrev pub get_level_string : Level → Str
get_level_string debug = b'D' ∷ b'E' ∷ b'B' ∷ b'U' ∷ b'G' ∷ []
get_level_string info = b'I' ∷ b'N' ∷ b'F' ∷ b'O' ∷ []
get_level_string warn = b'W' ∷ b'A' ∷ b'R' ∷ b'N' ∷ []
get_level_string error = b'E' ∷ b'R' ∷ b'R' ∷ b'O' ∷ b'R' ∷ []
get_level_string fatal = b'F' ∷ b'A' ∷ b'T' ∷ b'A' ∷ b'L' ∷ []

abbrev pub get_color_code : Level → Str
get_color_code debug = 27 ∷ b'[' ∷ b'3' ∷ b'6' ∷ b'm' ∷ []
get_color_code info = 27 ∷ b'[' ∷ b'3' ∷ b'2' ∷ b'm' ∷ []
get_color_code warn = 27 ∷ b'[' ∷ b'3' ∷ b'3' ∷ b'm' ∷ []
get_color_code error = 27 ∷ b'[' ∷ b'3' ∷ b'1' ∷ b'm' ∷ []
get_color_code fatal = 27 ∷ b'[' ∷ b'3' ∷ b'5' ∷ b'm' ∷ []

abbrev pub reset_color : Str
reset_color = 27 ∷ b'[' ∷ b'0' ∷ b'm' ∷ []

abbrev pub bold : Str
bold = 27 ∷ b'[' ∷ b'1' ∷ b'm' ∷ []

abbrev pub unbold : Str
unbold = 27 ∷ b'[' ∷ b'2' ∷ b'2' ∷ b'm' ∷ []

-- `good` says which of the five tee_streams has not failed, by the number of its level.
pub record Log : Type 0 where
  pub name : Str
  pub is_init : Bool
  pub targets : List ℕ
  pub good : ℕ → Bool

-- std::setw(width) << std::left
abbrev pub padded : ℕ → Str → Str
padded width text = text ++ replicate (width - length text) b' '

abbrev pub date_field : Str → Str
date_field date = (b'[' ∷ date) ++ (b']' ∷ b' ' ∷ [])

unfoldable pub level_field : Level → Str
level_field level = padded 21 (
    (((b'[' ∷ bold) ++ get_color_code level) ++ get_level_string level)
    ++ (reset_color ++ (b']' ∷ b' ' ∷ [])))

unfoldable pub plain_level_field : Level → Str
plain_level_field level = padded 8 ((b'[' ∷ get_level_string level) ++ (b']' ∷ b' ' ∷ []))

abbrev pub name_field : Bool → Str → Str
name_field true name = ((b'[' ∷ bold) ++ name) ++ (unbold ++ (b']' ∷ b' ' ∷ []))
name_field false name = []

abbrev pub plain_name_field : Bool → Str → Str
plain_name_field true name = (b'[' ∷ name) ++ (b']' ∷ b' ' ∷ [])
plain_name_field false name = []

-- `date` is the text of the time.
unfoldable pub create_header : Level → Str → Log → Str
unfolding level_field
create_header level date l = (date_field date ++ level_field level) ++ name_field l.is_init l.name

unfoldable pub create_plain_header : Level → Str → Log → Str
unfolding plain_level_field
create_plain_header level date l =
    (date_field date ++ plain_level_field level) ++ plain_name_field l.is_init l.name

-- TeeBuffer::add
abbrev pub add_target : ℕ → Log → Log
add_target target l = record l { targets = l.targets ++ (target ∷ []) }

module _ (h : Host) where
  open h use {State}

  -- TeeBuffer::overflow of a character; `false` is EOF.
  unfoldable pub overflow : ℕ → List ℕ → State → Bool × State
  overflow c [] s = (true, s)
  overflow c (target ∷ targets) s = elim (h.sputc c target s).0 [
    | true ↦ overflow c targets (h.sputc c target s).1
    | false ↦ (false, (h.sputc c target s).1)
  ]

  -- TeeBuffer::sync, which goes on after a failure.
  unfoldable pub sync : List ℕ → State → Bool × State
  sync [] s = (true, s)
  sync (target ∷ targets) s =
      let (ok, s') = h.pubsync target s in
      let (oks, s'') = sync targets s' in (if ok then oks else false, s'')

  -- A text inserted into a stream over the buffer, character by character up to a failure.
  unfoldable pub insert_text : Str → List ℕ → State → Bool × State
  unfolding overflow
  insert_text [] targets s = (true, s)
  insert_text (c ∷ cs) targets s = elim (overflow c targets s).0 [
    | true ↦ insert_text cs targets (overflow c targets s).1
    | false ↦ (false, (overflow c targets s).1)
  ]

  -- An insertion into tee_stream, which does nothing if the stream has failed.
  unfoldable pub insert : Level → Str → Log × State → Log × State
  unfolding insert_text
  insert level text (l, s) = elim (l.good (level_number level)) [
    | false ↦ (l, s)
    | true ↦
        let (ok, s') = insert_text text l.targets s in
        (record l { good = update (level_number level) ok l.good }, s')
  ]

  -- LogStream::operator<<, where RIX_UTIL_LOG_LEVEL is `limit`.
  unfoldable pub log : ℕ → Level → Str → Log × State → Log × State
  unfolding create_header insert
  log limit level val (l, s) =
      if ltb (level_number level) limit
      then (l, s)
      else let (t, s') = h.now s in
        insert level val (insert level (create_header level (h.date t) l) (l, s'))

  -- The directory of the log files.
  unfoldable pub dir_name : State → Str
  dir_name s =
      elim (h.getenv_home s) [ none ↦ h.pw_dir s | some dir ↦ dir ]
      ++ (b'/' ∷ b'.' ∷ b'r' ∷ b'i' ∷ b'x' ∷ b'/' ∷ b'l' ∷ b'o' ∷ b'g' ∷ b'/' ∷ [])

  -- From logFile.open on.
  unfoldable pub open_log : Str → Str → Log × State → Log × State
  open_log dir name (l, s) =
      let (t, s') = h.now s in
      (
        add_target h.log_file (record l { is_init = true }),
        h.open_file (dir ++ (name ++ ((95 ∷ h.decimal t.tp) ++ (b'.' ∷ b'l' ∷ b'o' ∷ b'g' ∷ []))))
            s',
      )

  -- Log::init
  unfoldable pub init : Str → Bool → Log × State → Log × State
  unfolding dir_name open_log
  init name log_to_file (l, s) =
      if l.is_init
      then (l, s)
      else if not log_to_file
      then (record l { name = name; is_init = true }, s)
      else let dir = dir_name s in
        if h.stat dir s
        then open_log dir name (record l { name = name }, s)
        else let (made, s') = h.make_dir dir s in
          if made
          then open_log dir name (record l { name = name }, s')
          else (record l { name = name; is_init = true }, s')
