-- ===== src/Base/Dict.antt =====
-- std::unordered_map as a list of entries, over keys with an equality test.
use native.Mathlib.Omega.{arith}
use Prim.Native.Nat.{ℕ}
use mathlib.Core.Path.{◌≡◌, refl}
use mathlib.Core.Logic.{inl, inr}
use mathlib.Core.Bool.{Bool, true, false}
use mathlib.Core.Option.{Option, none, some}
use mathlib.Core.List.{List, [], ◌∷◌}
use rob320_p.Base.Tests.{if◌then◌else◌, ◌==◌, Bool-cases}

pub record Key {ℓ} (K : Type ℓ) : Type ℓ where
  pub same : K → K → Bool
  pub same_sound : (a b : K) → same a b ≡ true → a ≡ b
  pub same_refl : (a : K) → same a a ≡ true

abbrev pub same_list : List ℕ → List ℕ → Bool
same_list [] [] = true
same_list [] (y ∷ ys) = false
same_list (x ∷ xs) [] = false
same_list (x ∷ xs) (y ∷ ys) = let rest = same_list xs ys in if x == y then rest else false

pub same_list_sound : (xs ys : List ℕ) → same_list xs ys ≡ true → xs ≡ ys
same_list_sound [] [] h = refl
same_list_sound [] (y ∷ ys) h = absurd (ground arith)
same_list_sound (x ∷ xs) [] h = absurd (ground arith)
same_list_sound (x ∷ xs) (y ∷ ys) h = ground (arith, same_list_sound xs ys)

pub same_list_refl : (xs : List ℕ) → same_list xs xs ≡ true
same_list_refl [] = refl
same_list_refl (x ∷ xs) = ground (arith, same_list_refl xs)

pub same_char_sound : (a b : ℕ) → (a == b) ≡ true → a ≡ b
same_char_sound a b h = ground arith

pub same_char_refl : (a : ℕ) → (a == a) ≡ true
same_char_refl a = ground arith

instance unfoldable pub char_key : Key ℕ
char_key = record { same = ◌==◌; same_sound = same_char_sound; same_refl = same_char_refl }

instance unfoldable pub string_key : Key (List ℕ)
string_key = record { same = same_list; same_sound = same_list_sound; same_refl = same_list_refl }

abbrev pub Dict {ℓ κ} : Type ℓ → Type κ → Type (ℓ ⊔ κ)
Dict K V = List (K × V)

module _ {ℓ κ} {K : Type ℓ} {V : Type κ} ⦃e : Key K⦄ where
  -- find
  unfoldable pub lookup : K → Dict K V → Option V
  lookup k [] = none
  lookup k ((j, v) ∷ d) = if e.same k j then some v else lookup k d

  -- operator[] with an assignment
  unfoldable pub insert : K → V → Dict K V → Dict K V
  insert k v [] = (k, v) ∷ []
  insert k v ((j, w) ∷ d) = if e.same k j then (j, v) ∷ d else (j, w) ∷ insert k v d

  -- emplace, which keeps an entry that is there
  unfoldable pub emplace : K → V → Dict K V → Dict K V
  emplace k v [] = (k, v) ∷ []
  emplace k v ((j, w) ∷ d) = if e.same k j then (j, w) ∷ d else (j, w) ∷ emplace k v d

  pub lookup-insert :
      (j k : K) (v : V) (d : Dict K V)
      → lookup j (insert k v d) ≡ (if e.same j k then some v else lookup j d)
  unfolding insert lookup
  lookup-insert j k v [] = refl
  lookup-insert j k v ((x, w) ∷ d) = elim (Bool-cases (e.same k x)) [
    | inl there ↦ ground (arith, there, e.same_sound k x there)
    | inr other ↦
        ground
          (arith, other, lookup-insert j k v d, e.same_sound j k, e.same_sound j x, e.same_refl j)
  ]

  pub lookup-emplace :
      (j k : K) (v : V) (d : Dict K V)
      → lookup j (emplace k v d) ≡ elim (lookup j d) as (λ x. Option V) [
        | none ↦ if e.same j k then some v else none
        | some w ↦ some w
      ]
  unfolding emplace lookup
  lookup-emplace j k v [] = refl
  lookup-emplace j k v ((x, w) ∷ d) = elim (Bool-cases (e.same k x)) [
    | inl there ↦ ground (arith, there, e.same_sound k x there)
    | inr other ↦
        ground
          (arith, other, lookup-emplace j k v d, e.same_sound j k, e.same_sound j x, e.same_refl j)
  ]
