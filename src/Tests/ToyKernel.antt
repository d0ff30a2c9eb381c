-- ===== src/Tests/ToyKernel.antt =====
-- A small kernel with one pipe, between descriptors 3 and 4, that meets what Ipc assumes of a kernel.
use rob320_p.Base.{
  ℕ, suc, ◌+◌, ◌-◌, ◌≡◌, ◌≤◌, List, [], ◌∷◌, Bool, true, false, ◌==◌, ltb, if◌then◌else◌, none,
  refl, arith, ap, inr, lt→ltb, le→ltb, Bool-cases, inl,
}
use rob320_p.Base.Int.{ℤ, pos}
use rob320_p.Io.{bytes, would_block}
use rob320_p.Ipc.Kernel.{Kernel, made, IsPosix, GivesFresh}
use rob320_p.Ipc.Flags.{KeepsFlags}
use rob320_p.Ipc.Ownership.{update}
use rob320_p.Ipc.Signal.Waits.{IsPipe}

pub record Machine : Type 0 where
  pub opened : List ℕ
  pub flags : ℕ → ℕ
  pub waiting : ℕ

unfoldable pub contains : ℕ → List ℕ → Bool
contains m [] = false
contains m (x ∷ xs) = if x == m then true else contains m xs

unfoldable pub remove : ℕ → List ℕ → List ℕ
remove n [] = []
remove n (x ∷ xs) = let rest = remove n xs in if n == x then rest else x ∷ rest

unfoldable pub total : List ℕ → ℕ
total [] = 0
total (x ∷ xs) = x + total xs

pub contains-remove :
    (n m : ℕ) (xs : List ℕ) → contains m (remove n xs) ≡ (if n == m then false else contains m xs)
unfolding contains remove
contains-remove n m [] = ground arith
contains-remove n m (x ∷ xs) = ground (arith, contains-remove n m xs)

pub le-total : (m : ℕ) (xs : List ℕ) → contains m xs ≡ true → m ≤ total xs
unfolding contains total
le-total m [] h = ground arith
le-total m (x ∷ xs) h = ground (arith, le-total m xs)

unfoldable pub fresh : Machine → ℤ × Machine
unfolding total
fresh s = (pos (suc (total s.opened)), record s { opened = suc (total s.opened) ∷ s.opened })

pub fresh_new : (xs : List ℕ) → contains (suc (total xs)) xs ≡ false
fresh_new xs = elim (Bool-cases (contains (suc (total xs)) xs)) [
  | inl there ↦ absurd (omega (arith, le-total (suc (total xs)) xs there))
  | inr new ↦ new
]

pub fresh_lem :
    (s : Machine)
    → GivesFresh (λ m. contains m s.opened) (λ m. contains m (fresh s).1.opened) (fresh s).0
unfolding fresh contains
fresh_lem s = inr (suc (total s.opened), refl, fresh_new s.opened, λ m. refl)

unfoldable pub toy_kernel : Kernel
unfolding fresh remove
toy_kernel = record {
  State = Machine;
  open_path = λ path flags mode s. fresh s;
  close = λ n s. record s { opened = remove n s.opened };
  dup = λ n s. fresh s;
  pipe = λ s. (none, s);
  mkfifo = λ path mode s. (made, s);
  unlink = λ path s. (true, s);
  get_flags = λ n s. pos (s.flags n);
  set_flags = λ n flags s. record s { flags = update n flags s.flags };
  read = λ n size s.
      if ltb 0 s.waiting
      then (bytes (0 ∷ []), record s { waiting = s.waiting - 1 })
      else (would_block, s);
  write = λ n bs s. (pos 1, record s { waiting = s.waiting + 1 });
  poll = λ n event t s. if ltb 0 s.waiting then (pos 1, true, s) else (pos 0, false, s);
  signal = λ n d s. s;
  raise = λ n s. (true, s);
  kill = λ pid n s. (true, s);
}

unfoldable pub toy_kernel-IsPosix : IsPosix toy_kernel
unfolding fresh toy_kernel
toy_kernel-IsPosix = record {
  is_open = λ s m. contains m s.opened;
  open_path_fresh = λ path flags mode s. fresh_lem s;
  dup_fresh = λ n s. fresh_lem s;
  close_lem = λ n m s. contains-remove n m s.opened;
}

pub same : (n a b : ℕ) → (if n == n then a else b) ≡ a
same n a b = ground arith

pub toy_kernel-KeepsFlags : KeepsFlags toy_kernel
unfolding toy_kernel
toy_kernel-KeepsFlags = record { get_flags-set_flags = λ n flags b s e. ap pos (same n _ _) }

unfoldable pub toy_kernel-IsPipe : IsPipe toy_kernel 3 4
unfolding toy_kernel
toy_kernel-IsPipe = record {
  pending = λ s. s.waiting;
  poll_pending = λ t s h. rw (lt→ltb 0 s.waiting h);
  poll_empty = λ t s h. rw (le→ltb 0 s.waiting (omega (arith, h)));
  read_pending = λ n s h k. rw (lt→ltb 0 s.waiting k) (0, [], refl, omega arith);
  read_empty = λ n flags s g on h. rw (le→ltb 0 s.waiting (omega (arith, h)));
  get_flags-read = λ n s. elim (Bool-cases (ltb 0 s.waiting)) [
    | inl more ↦ rw more refl
    | inr over ↦ rw over refl
  ];
  pending-set_flags = λ flags s. refl;
  pending-write = λ b s. omega arith;
  get_flags-write = λ bs s. refl;
}
