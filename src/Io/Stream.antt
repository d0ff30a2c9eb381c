-- ===== src/Io/Stream.antt =====
-- The byte stream that a list of answers carries.
use rob320_p.Base.{
  ℕ, ◌+◌, ◌≡◌, List, [], ◌∷◌, ◌++◌, Bool, true, false, none, some, All, IsByte, length, refl,
}
use rob320_p.Io.{Answer, bytes, interrupted, would_block, broken, Notif, notif_ready, IsQuiet}

-- The bytes up to the end of the file or an error.
abbrev pub carried : List Answer → List ℕ
carried [] = []
carried (bytes [] ∷ input) = []
carried (bytes (b ∷ bs) ∷ input) = (b ∷ bs) ++ carried input
carried (interrupted ∷ input) = carried input
carried (would_block ∷ input) = carried input
carried (broken ∷ input) = []

-- The stream ends, by the end of the file or an error.
abbrev pub ends : List Answer → Bool
ends [] = false
ends (bytes [] ∷ input) = true
ends (bytes (b ∷ bs) ∷ input) = ends input
ends (interrupted ∷ input) = ends input
ends (would_block ∷ input) = ends input
ends (broken ∷ input) = true

-- All bytes of the list, those behind an end too.
abbrev pub total : List Answer → ℕ
total [] = 0
total (bytes bs ∷ input) = length bs + total input
total (interrupted ∷ input) = total input
total (would_block ∷ input) = total input
total (broken ∷ input) = total input

abbrev pub AreBytes : List Answer → Type 0
AreBytes [] = Unit {0}
AreBytes (bytes bs ∷ input) = All IsByte bs × AreBytes input
AreBytes (interrupted ∷ input) = AreBytes input
AreBytes (would_block ∷ input) = AreBytes input
AreBytes (broken ∷ input) = AreBytes input

-- A quiet notification is not ready, and stays quiet.
pub notif_ready-IsQuiet :
    (notif : Notif)
    → IsQuiet notif
    → ((notif_ready notif).0 ≡ false) × IsQuiet (notif_ready notif).1
unfolding notif_ready
notif_ready-IsQuiet none q = (refl, tt)
notif_ready-IsQuiet (some []) q = (refl, tt)
notif_ready-IsQuiet (some (b ∷ bs)) q = q
