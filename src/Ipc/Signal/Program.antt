-- ===== src/Ipc/Signal/Program.antt =====
-- A program's Signal objects over the table of class Signal (src/rix/ipc/signal.cpp), step by step.
use rob320_p.Base.{
  ℕ, zero, suc, ◌≡◌, ◌≢◌, ◌<◌, true, false, ltb, inl, inr, arith, refl, sym, ap, ◌∙◌, Bool-cases,
}
use mathlib.Core.Path.{subst}
use rob320_p.Base.Int.{ℤ, pos, negsuc}
use rob320_p.Ipc.Kernel.{Kernel}
use rob320_p.Ipc.Ownership.{update}
use rob320_p.Ipc.Signal.{
  Signal, World, taken, constructed, construct, release, destroy, move, move_assign, handler,
}
use rob320_p.Ipc.Signal.Managed.{
  up, inits, nothing, Managed, assigned_indices, IsFree, released-Managed, made-Managed,
  moved-Managed, construct_lem, handler_table,
}

module _ (k : Kernel) where
  -- The objects of a program: index_ of each, with one that is not alive as one that manages nothing.
  pub record Objects : Type 0 where
    pub indices : ℕ → ℤ
    pub world : World k

  abbrev pub signal : Objects → ℕ → Signal
  signal o i = record { index = o.indices i }

  -- Object `i` is made, moved from another, assigned from another or destroyed, or the handler runs.
  pub data Step (o o' : Objects) : Type 0 where
    made :
        (i : ℕ) (signum : ℤ) (x : Signal) (w : World k)
        → IsFree k (o.indices i)
        → construct k signum o.world ≡ constructed x w
        → o' ≡ record { indices = update i x.index o.indices; world = w }
        → Step o o'
    moved :
        (i j : ℕ)
        → i ≢ j
        → IsFree k (o.indices i)
        → o' ≡ record {
          indices =
              update j
                (move k (signal o j)).1.index
                (update i (move k (signal o j)).0.index o.indices);
          world = o.world;
        }
        → Step o o'
    move_assigned :
        (i j : ℕ)
        → i ≢ j
        → o' ≡ record {
          indices =
              update j
                (move_assign k (signal o i) (signal o j) o.world).1.index
                (update i (move_assign k (signal o i) (signal o j) o.world).0.index o.indices);
          world = (move_assign k (signal o i) (signal o j) o.world).2;
        }
        → Step o o'
    destroyed :
        (i : ℕ)
        → o' ≡ record {
          indices = update i (negsuc 0) o.indices;
          world = destroy k (signal o i) o.world;
        }
        → Step o o'
    delivered :
        (signum : ℤ)
        → o' ≡ record { indices = o.indices; world = handler k signum o.world }
        → Step o o'

  pub data Reach (o : Objects) : Objects → Type 0 where
    here : Reach o o
    next : {p q : Objects} → Reach o p → Step p q → Reach o q

  abbrev IsManaged : Objects → Type 0
  IsManaged o = Managed o.indices o.world.notifier

  Step-IsManaged : (o o' : Objects) → Step o o' → IsManaged o → IsManaged o'
  unfolding move move_assign destroy
  Step-IsManaged o o' (made i signum x w free e f) h =
      let (n, l, init, index, world) = construct_lem k signum x o.world w e in
      subst IsManaged
        (sym (
          f
          ∙ ap (λ v. record { indices = update i v o.indices; world = w }) (sym index)
          ∙ ap (λ v. record { indices = update i (pos n) o.indices; world = v }) (sym world)))
        (made-Managed k o.indices i n o.world h free l init)
  Step-IsManaged o o' (moved i j d free f) h =
      subst IsManaged (sym f) (moved-Managed k o.indices i j o.world.notifier h d free)
  Step-IsManaged o o' (move_assigned i j d f) h = subst IsManaged (sym f) (
      subst (λ v. Managed v (release k (o.indices i) o.world).notifier)
        (assigned_indices i j o.indices d)
        (moved-Managed k (update i (negsuc 0) o.indices) i j _
          (released-Managed k o.indices i (o.indices i) o.world h refl) d (ground arith)))
  Step-IsManaged o o' (destroyed i f) h =
      subst IsManaged (sym f) (released-Managed k o.indices i (o.indices i) o.world h refl)
  Step-IsManaged o o' (delivered signum f) h =
      subst IsManaged (sym f) (subst (Managed o.indices) (sym (handler_table k signum o.world)) h)

  Reach-IsManaged : {o o' : Objects} → Reach o o' → IsManaged o → IsManaged o'
  Reach-IsManaged here h = h
  Reach-IsManaged (next r st) h = Step-IsManaged _ _ st (Reach-IsManaged r h)

  -- No object manages a signal, and no entry is initialised.
  abbrev pub IsStart : Objects → Type 0
  IsStart o = ((i : ℕ) → o.indices i ≡ negsuc 0) × ((n : ℕ) → (o.world.notifier n).is_init ≡ false)

  start-Managed : (o : Objects) → IsStart o → IsManaged o
  start-Managed o (free, none_init) = record {
    owned = record {
      input_base = refl;
      base_open = λ m b. base_init m b;
      owned_open = λ i m e. absurd (ground (arith, e, free i));
      apart = λ i m e. refl;
      alone = λ i j m e e'. absurd (ground (arith, e, free i));
      no_leak = λ m e b. absurd (no_init m e b);
    };
    low = λ i n e. absurd (ground (arith, e, free i));
  }
    where
      base_init : (m : ℕ) → nothing m ≡ true → inits o.world.notifier m ≡ true
      base_init zero b = refl
      base_init (suc n) b = absurd (ground (arith, b))

      no_init : (m : ℕ) → inits o.world.notifier m ≡ true → nothing m ≡ false → ⊥
      no_init zero e b = ground (arith, b)
      no_init (suc n) e b = ground (arith, e, none_init n)

  -- From a table without an initialised entry and objects that manage nothing, after any construction,
  -- move from and assignment from another object, destruction and delivery of signals: a signal that an
  -- object manages is within the table and its entry is initialised, and no other object manages it.
  pub Reach-managed :
      (o o' : Objects) (i j n : ℕ)
      → IsStart o
      → Reach o o'
      → o'.indices i ≡ pos n
      → o'.indices j ≡ pos n
      → (n < 32) × ((o'.world.notifier n).is_init ≡ true) × (i ≡ j)
  Reach-managed o o' i j n start r e f =
      let h : IsManaged o' = Reach-IsManaged r (start-Managed o start) in
      (h.low i n e, h.owned.owned_open i n (ap up e), h.owned.alone i j n (ap up e) (ap up f))

  up_pos : (v : ℤ) (n : ℕ) → up v ≡ pos (suc n) → v ≡ pos n
  up_pos (pos m) n h = ground (arith, h)
  up_pos (negsuc m) n h = absurd (ground (arith, h))

  -- From a table without an initialised entry and objects that manage nothing, after any construction,
  -- move from and assignment from another object, destruction and delivery of signals: if the
  -- constructor throws because there is a handler for the signal already, then there is an object that
  -- manages it.
  pub Reach-taken :
      (o o' : Objects) (n : ℕ)
      → IsStart o
      → Reach o o'
      → construct k (pos (suc n)) o'.world ≡ taken
      → (i : ℕ) × (o'.indices i ≡ pos n)
  unfolding construct
  Reach-taken o o' n start r h =
      let managed : IsManaged o' = Reach-IsManaged r (start-Managed o start) in
      elim (Bool-cases (ltb n 32)) [
        | inr e ↦ absurd (ground (arith, h, e))
        | inl e ↦ elim (Bool-cases (o'.world.notifier n).is_init) [
          | inr f ↦ absurd (ground (arith, h, e, f))
          | inl f ↦
              let (i, g) = managed.owned.no_leak (suc n) f refl in (i, up_pos (o'.indices i) n g)
        ]
      ]
