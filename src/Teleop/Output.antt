-- ===== src/Teleop/Output.antt =====
-- `write_exact` of TeleopKeyboard::spin (src/teleop_keyboard/teleop_keyboard.cpp).
use rob320_p.Base.{
  take-append-drop, ℕ, zero, suc, ◌≡◌, List, [], ◌∷◌, ◌++◌, take, drop, refl, ap, ◌∙◌, append-nil,
  append_assoc,
}

-- What `write` answers: that it took up to so many bytes, or -1 with errno EINTR or any other. From the end
-- of a list of answers on it takes all that it is given.
pub data Wrote : Type 0 where
  took : ℕ → Wrote
  interrupted broken : Wrote

-- The result of `write_exact`, what the output has received by then, and the answers to come.
pub data Written : Type 0 where
  sent : List ℕ → List Wrote → Written
  refused : List ℕ → List Wrote → Written

-- The first argument is what is not sent yet, src + sent.
unfoldable pub write_exact : List ℕ → List ℕ → List Wrote → Written
write_exact [] out ws = sent out ws
write_exact (b ∷ bs) out [] = sent (out ++ (b ∷ bs)) []
write_exact (b ∷ bs) out (took zero ∷ ws) = refused out ws
write_exact (b ∷ bs) out (took (suc k) ∷ ws) =
    write_exact (drop (suc k) (b ∷ bs)) (out ++ take (suc k) (b ∷ bs)) ws
write_exact (b ∷ bs) out (interrupted ∷ ws) = write_exact (b ∷ bs) out ws
write_exact (b ∷ bs) out (broken ∷ ws) = refused out ws

-- Every write takes a byte at least, or is interrupted.
abbrev pub IsWilling : List Wrote → Type 0
IsWilling [] = Unit {0}
IsWilling (took zero ∷ ws) = ⊥
IsWilling (took (suc k) ∷ ws) = IsWilling ws
IsWilling (interrupted ∷ ws) = IsWilling ws
IsWilling (broken ∷ ws) = ⊥

abbrev pub Sent : List ℕ → Written → Type 0
Sent out r = (ws : List Wrote) × (r ≡ sent out ws) × IsWilling ws

-- If every write takes a byte at least or is interrupted, write_exact succeeds and has sent all its
-- bytes, in order, however the writes are cut, and the writes to come are as willing.
pub write_exact-Sent :
    (src out : List ℕ) (ws : List Wrote) → IsWilling ws → Sent (out ++ src) (write_exact src out ws)
unfolding write_exact
write_exact-Sent [] out ws h = (ws, rw append-nil, h)
write_exact-Sent (b ∷ bs) out [] h = ([], refl, tt)
write_exact-Sent (b ∷ bs) out (took zero ∷ ws) h = absurd h
write_exact-Sent (b ∷ bs) out (took (suc k) ∷ ws) h =
    let (ws', e, h') = write_exact-Sent (drop k bs) (out ++ (b ∷ take k bs)) ws h in
    (
      ws',
      e
          ∙ ap (λ l. sent l ws')
              (append_assoc out (b ∷ take k bs) (drop k bs)
                ∙ ap (λ l. out ++ (b ∷ l)) (take-append-drop k bs)),
      h',
    )
write_exact-Sent (b ∷ bs) out (interrupted ∷ ws) h = write_exact-Sent (b ∷ bs) out ws h
write_exact-Sent (b ∷ bs) out (broken ∷ ws) h = absurd h
