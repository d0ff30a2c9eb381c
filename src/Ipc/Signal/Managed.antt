-- ===== src/Ipc/Signal/Managed.antt =====
-- Which Signal object manages which entry of the table of class Signal (src/rix/ipc/signal.cpp).
use rob320_p.Base.{
  ℕ, zero, suc, [], ◌∷◌, ◌≡◌, ◌≢◌, ◌<◌, Bool, true, false, ◌==◌, if◌then◌else◌, inl, inr, some,
  arith, refl, sym, ap, ◌∙◌, Bool-cases, lt→ltb, Option-cases,
}
use mathlib.Core.Path.{fun_ext, subst}
use rob320_p.Base.Int.{ℤ, pos, negsuc, pos_part}
use rob320_p.Ipc.Kernel.{Kernel}
use rob320_p.Ipc.Ownership.{
  update, IsOwned, IsIdle, idle-IsOwned, closed-IsOwned, fresh-IsOwned, moved-IsOwned,
}
use rob320_p.Ipc.Signal.{
  Signal, SignalNotifier, World, constructed, construct, manage, forget, release, assign_pipes,
  slot_of_signum, handler,
}

-- The indices as descriptors that are open if the entry is initialised, one up since 0 is an index.
abbrev pub up : ℤ → ℤ
up (pos n) = pos (suc n)
up (negsuc n) = negsuc n

abbrev pub ups : (ℕ → ℤ) → ℕ → ℤ
ups indices i = up (indices i)

abbrev pub inits : (ℕ → SignalNotifier) → ℕ → Bool
inits table zero = true
inits table (suc n) = (table n).is_init

abbrev pub nothing : ℕ → Bool
nothing zero = true
nothing (suc n) = false

-- The indices of the objects are within the array, each is in one object only and its entry is initialised,
-- and an entry that is initialised has its object.
pub record Managed (indices : ℕ → ℤ) (table : ℕ → SignalNotifier) : Type 0 where
  pub owned : IsOwned nothing (ups indices) (inits table)
  pub low : (i n : ℕ) → indices i ≡ pos n → n < 32

ups-update :
    (i : ℕ) (v : ℤ) (indices : ℕ → ℤ) → update i (up v) (ups indices) ≡ ups (update i v indices)
ups-update i v indices = fun_ext λ j. ground arith

pub assigned_indices :
    (i j : ℕ) (indices : ℕ → ℤ)
    → i ≢ j
    → update j (negsuc 0) (update i (update i (negsuc 0) indices j) (update i (negsuc 0) indices))
      ≡ update j (negsuc 0) (update i (indices j) indices)
assigned_indices i j indices d = fun_ext λ m. ground arith

module _ (k : Kernel) where
  inits-manage :
      (i m : ℕ) (w : World k)
      → inits (manage k i w).notifier m ≡ (if suc i == m then true else inits w.notifier m)
  unfolding manage
  inits-manage i zero w = ground arith
  inits-manage i (suc n) w = ground arith

  inits-forget :
      (i m : ℕ) (w : World k)
      → inits (forget k i w).notifier m ≡ (if suc i == m then false else inits w.notifier m)
  unfolding forget assign_pipes
  inits-forget i zero w = ground arith
  inits-forget i (suc n) w = ground arith

  pub released-Managed :
      (indices : ℕ → ℤ) (i : ℕ) (v : ℤ) (w : World k)
      → Managed indices w.notifier
      → indices i ≡ v
      → Managed (update i (negsuc 0) indices) (release k v w).notifier
  unfolding release
  released-Managed indices i (negsuc n) w h e = record {
    owned =
        subst (λ f. IsOwned nothing f (inits w.notifier)) (ups-update i (negsuc 0) indices)
          (idle-IsOwned nothing (ups indices) _ h.owned i (negsuc 0) (ap (λ v. pos_part (up v)) e)
            refl);
    low = λ j m f. ground (arith, h.low j m);
  }
  released-Managed indices i (pos n) w h e =
      let init : (w.notifier n).is_init ≡ true = h.owned.owned_open i n (ap up e) in
      rw (release, lt→ltb n 32 (h.low i n e), init)
        (record {
          owned =
              subst (λ f. IsOwned nothing f (inits (forget k n w).notifier))
                (ups-update i (negsuc 0) indices)
                (closed-IsOwned nothing (ups indices) _ h.owned i n (inits (forget k n w).notifier)
                  (ap up e) (λ m. inits-forget n m w));
          low = λ j m f. ground (arith, h.low j m);
        })

  abbrev pub IsFree : ℤ → Type 0
  IsFree v = IsIdle (up v)

  pub made-Managed :
      (indices : ℕ → ℤ) (i n : ℕ) (w : World k)
      → Managed indices w.notifier
      → IsFree (indices i)
      → n < 32
      → (w.notifier n).is_init ≡ false
      → Managed (update i (pos n) indices) (manage k n w).notifier
  made-Managed indices i n w h free l init = record {
    owned =
        subst (λ f. IsOwned nothing f (inits (manage k n w).notifier))
          (ups-update i (pos n) indices)
          (fresh-IsOwned nothing (ups indices) _ h.owned i (pos (suc n))
            (inits (manage k n w).notifier) free
            (inr (suc n, refl, init, λ m. inits-manage n m w)));
    low = λ j m f. ground (arith, h.low j m, l);
  }

  pub moved-Managed :
      (indices : ℕ → ℤ) (i j : ℕ) (table : ℕ → SignalNotifier)
      → Managed indices table
      → i ≢ j
      → IsFree (indices i)
      → Managed (update j (negsuc 0) (update i (indices j) indices)) table
  moved-Managed indices i j table h d free = record {
    owned =
        subst (λ f. IsOwned nothing f (inits table))
          (ap (update j (negsuc 0)) (ups-update i (indices j) indices) ∙ ups-update j (negsuc 0) _)
          (moved-IsOwned nothing (ups indices) _ h.owned i j (negsuc 0) d free refl);
    low = λ x m f. ground (arith, h.low x m, h.low j m);
  }

  slot_low : (signum : ℤ) (n : ℕ) → slot_of_signum signum ≡ some n → n < 32
  slot_low (pos zero) n h = ground (arith, h)
  slot_low (pos (suc m)) n h = ground (arith, h)
  slot_low (negsuc m) n h = ground (arith, h)

  constructed_same :
      {x x' : Signal} {w w' : World k} → constructed x w ≡ constructed x' w' → (x ≡ x') × (w ≡ w')
  constructed_same h = (cc, cc)

  pub construct_lem :
      (signum : ℤ) (x : Signal) (w w' : World k)
      → construct k signum w ≡ constructed x w'
      → (n : ℕ) × (n < 32)
        × ((w.notifier n).is_init ≡ false)
        × (pos n ≡ x.index)
        × (manage k n w ≡ w')
  unfolding construct
  construct_lem signum x w w' h = elim (Option-cases (slot_of_signum signum)) [
    | inl e ↦ absurd (ground (arith, h, e))
    | inr (n, e) ↦ elim (Bool-cases (w.notifier n).is_init) [
      | inl f ↦ absurd (ground (arith, h, e, f))
      | inr f ↦
          let made : construct k signum w ≡ constructed (record { index = pos n }) (manage k n w) =
            rw (construct, e, f) refl in
          let (s, t) = constructed_same (sym made ∙ h) in
          (n, slot_low signum n e, f, ap (λ (x : Signal). x.index) s, t)
    ]
  ]

  -- Neither the handler nor wait changes the table.
  pub handler_table : (signum : ℤ) (w : World k) → (handler k signum w).notifier ≡ w.notifier
  unfolding handler
  handler_table signum w = elim (Option-cases (slot_of_signum signum)) [
    | inl e ↦ rw (handler, e) refl
    | inr (n, e) ↦ elim (Bool-cases (w.notifier n).is_init) [
      | inl f ↦ rw (handler, e, f) (written (w.notifier n).writes.fd)
      | inr f ↦ rw (handler, e, f) refl
    ]
  ]
    where
      written :
          (fd : ℤ)
          → (elim fd as (λ x. World k) [
            | negsuc m ↦ w
            | pos m ↦ record w { kernel = (k.write m (1 ∷ []) w.kernel).1 }
          ]).notifier
            ≡ w.notifier
      written (pos m) = refl
      written (negsuc m) = refl
