-- ===== src/Ipc/Ownership.antt =====
-- Who owns which descriptor: a table of the descriptors of all File objects against the table of the kernel.
use rob320_p.Base.{
  ℕ, suc, ◌≡◌, ◌≢◌, Bool, true, false, ◌==◌, if◌then◌else◌, inl, inr, arith, Bool-cases,
}
use rob320_p.Base.Int.{ℤ, pos, negsuc, pos_part}
use rob320_p.Ipc.Kernel.{GivesFresh}

abbrev pub update {ℓ} : {A : Type ℓ} → ℕ → A → (ℕ → A) → ℕ → A
update i a f j = if i == j then a else f j

-- Nothing that a destructor would close.
abbrev pub IsIdle : ℤ → Type 0
IsIdle fd = pos_part fd ≡ 0

-- `base` is what the process had open before. Every other open descriptor is in an object, in one only, and
-- is open; descriptor 0, which no destructor closes, is in `base`.
pub record IsOwned (base : ℕ → Bool) (fds : ℕ → ℤ) (opened : ℕ → Bool) : Type 0 where
  pub input_base : base 0 ≡ true
  pub base_open : (m : ℕ) → base m ≡ true → opened m ≡ true
  pub owned_open : (i m : ℕ) → fds i ≡ pos (suc m) → opened (suc m) ≡ true
  pub apart : (i m : ℕ) → fds i ≡ pos (suc m) → base (suc m) ≡ false
  pub alone : (i j m : ℕ) → fds i ≡ pos (suc m) → fds j ≡ pos (suc m) → i ≡ j
  pub no_leak : (m : ℕ) → opened m ≡ true → base m ≡ false → (i : ℕ) × (fds i ≡ pos m)

module _ (base : ℕ → Bool) (fds : ℕ → ℤ) (opened : ℕ → Bool) (w : IsOwned base fds opened) where
  pub idle-IsOwned :
      (i : ℕ) (v : ℤ) → IsIdle (fds i) → IsIdle v → IsOwned base (update i v fds) opened
  idle-IsOwned i v h k = record {
    input_base = w.input_base;
    base_open = w.base_open;
    owned_open = λ j m e. grind (arith, w.owned_open);
    apart = λ j m e. grind (arith, w.apart);
    alone = λ j j' m e e'. ground (arith, w.alone j j' m);
    no_leak = λ m o b. let (j, e) = w.no_leak m o b in (j, ground (arith, e, w.input_base));
  }

  -- A descriptor of an object is closed.
  pub closed-IsOwned :
      (i n : ℕ) (opened' : ℕ → Bool)
      → fds i ≡ pos (suc n)
      → ((m : ℕ) → opened' m ≡ (if suc n == m then false else opened m))
      → IsOwned base (update i (negsuc 0) fds) opened'
  closed-IsOwned i n opened' h c = record {
    input_base = w.input_base;
    base_open = λ m b. ground (arith, c m, w.base_open m b, w.apart i n h);
    owned_open = λ j m e. ground (arith, c (suc m), w.owned_open j m, w.alone i j n h);
    apart = λ j m e. ground (arith, w.apart j m);
    alone = λ j j' m e e'. ground (arith, w.alone j j' m);
    no_leak =
        λ m o b. let (j, e) = w.no_leak m (ground (arith, c m)) b in (j, ground (arith, e, h, c m));
  }

  -- An object without a descriptor gets one that was not open, or none.
  pub fresh-IsOwned :
      (i : ℕ) (r : ℤ) (opened' : ℕ → Bool)
      → IsIdle (fds i)
      → GivesFresh opened opened' r
      → IsOwned base (update i r fds) opened'
  fresh-IsOwned i r opened' h (inl (e, same)) = record {
    input_base = w.input_base;
    base_open = λ m b. ground (arith, same m, w.base_open m b);
    owned_open = λ j m e'. ground (arith, same (suc m), w.owned_open j m);
    apart = λ j m e'. ground (arith, w.apart j m);
    alone = λ j j' m e' e''. ground (arith, w.alone j j' m);
    no_leak = λ m o b.
        let (j, e') = w.no_leak m (ground (arith, same m)) b in
        (j, ground (arith, e', w.input_base));
  }
  fresh-IsOwned i r opened' h (inr (n, e, new, more)) = record {
    input_base = w.input_base;
    base_open = λ m b. ground (arith, more m, w.base_open m b);
    owned_open = λ j m e'. ground (arith, more (suc m), w.owned_open j m);
    apart = λ j m e'. ground (arith, w.apart j m, w.base_open n, e, new);
    alone = λ j j' m e' e''.
        ground (arith, w.alone j j' m, w.owned_open j m, w.owned_open j' m, e, new);
    no_leak = λ m o b. elim (Bool-cases (n == m)) [
      | inl same ↦ (i, ground (arith, e, same))
      | inr other ↦
          let (x, e') = w.no_leak m (ground (arith, more m, other)) b in
          (x, ground (arith, e', h, w.input_base))
    ];
  }

  -- A descriptor goes from one object to another that has none.
  pub moved-IsOwned :
      (i j : ℕ) (v : ℤ)
      → i ≢ j
      → IsIdle (fds i)
      → IsIdle v
      → IsOwned base (update j v (update i (fds j) fds)) opened
  moved-IsOwned i j v d h k = record {
    input_base = w.input_base;
    base_open = w.base_open;
    owned_open = λ x m e. ground (arith, w.owned_open x m, w.owned_open j m);
    apart = λ x m e. ground (arith, w.apart x m, w.apart j m);
    alone = λ x y m e e'. ground (arith, w.alone x y m, w.alone x j m, w.alone j y m);
    no_leak = λ m o b.
        let (x, e) = w.no_leak m o b in
        elim (Bool-cases (j == x)) [
          | inl same ↦ (i, ground (arith, e, same, d))
          | inr other ↦ (x, ground (arith, e, other, h, w.input_base))
        ];
  }
