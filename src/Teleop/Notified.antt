-- ===== src/Teleop/Notified.antt =====
-- TeleopKeyboard::spin (src/teleop_keyboard/teleop_keyboard.cpp) after its notification.
use rob320_p.Base.{ℕ, ◌≡◌, List, [], ◌∷◌, Bool, true, some, refl, inl, inr, ◌⊎◌, Option-cases}
use rob320_p.Util.Time.{Time}
use rob320_p.Io.{notif_ready}
use rob320_p.Teleop.Key.{Doubles, Speeds, to_upper, velocity}
use rob320_p.Teleop.Output.{Wrote}
use rob320_p.Teleop.Loop.{
  leave, Event, idle, key, closed, interrupted, would_block, broken, unless_ready, press, trip,
  returned, waiting, spin,
}

module _ (fp : Doubles) (speeds : Speeds fp) where
  press_notified :
      (ch : ℕ) (now : Time) (seq : ℕ) (out : List ℕ) (ws : List Wrote) (rest : List Bool)
      → press fp speeds ch now seq out ws (some (true ∷ rest)) ≡ leave out
  unfolding press unless_ready notif_ready
  press_notified ch now seq out ws rest = elim (Option-cases (velocity fp speeds (to_upper ch))) [
    | inl e ↦ rw (press, e, unless_ready, notif_ready)
    | inr (v, e) ↦ rw (press, e, unless_ready, notif_ready)
  ]

  -- Once the notification is ready, spin sends nothing more, whatever its input holds: it returns with
  -- the output it has, or waits with it.
  pub spin-notified :
      (events : List Event) (seq : ℕ) (out : List ℕ) (ws : List Wrote) (rest : List Bool)
      → (spin fp speeds events seq out ws (some (true ∷ rest)) ≡ returned out)
        ⊎ (spin fp speeds events seq out ws (some (true ∷ rest)) ≡ waiting out)
  unfolding spin trip unless_ready notif_ready
  spin-notified [] seq out ws rest = inr refl
  spin-notified (idle ∷ events) seq out ws rest = inl refl
  spin-notified (key ch now ∷ events) seq out ws rest =
      inl (rw (spin, trip, press_notified ch now seq out ws rest))
  spin-notified (closed ∷ events) seq out ws rest = inl refl
  spin-notified (interrupted ∷ events) seq out ws rest = spin-notified events seq out ws rest
  spin-notified (would_block ∷ events) seq out ws rest = spin-notified events seq out ws rest
  spin-notified (broken ∷ events) seq out ws rest = inl refl
