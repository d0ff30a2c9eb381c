-- ===== src/Ipc/Objects.antt =====
-- A program's File objects (src/rix/ipc/file.cpp) over the kernel, step by step.
use rob320_p.Base.{
  ℕ, zero, suc, ◌≡◌, ◌≢◌, Bool, true, false, inl, inr, List, arith, refl, sym, ap, ◌∙◌, Bool-cases,
}
use mathlib.Core.Path.{fun_ext, subst}
use rob320_p.Base.Int.{ℤ, pos, negsuc, pos_part}
use rob320_p.Ipc.Kernel.{Kernel, IsPosix, GivesFresh}
use rob320_p.Ipc.File
use rob320_p.Ipc.File.{
  File, open_file, copy, close_fd, dup_fd, copy_assign, move, move_assign, move_assign_self,
  destroy,
}
use rob320_p.Ipc.Ownership.{
  update, IsIdle, IsOwned, idle-IsOwned, closed-IsOwned, fresh-IsOwned, moved-IsOwned,
}

module _ (k : Kernel) where
  -- fd_ of each object. One that is not alive counts as an object without a descriptor.
  pub record World : Type 0 where
    pub fds : ℕ → ℤ
    pub kernel : k.State

  abbrev pub file : World → ℕ → File
  file w i = record { fd = w.fds i }

  abbrev pub set_file : ℕ → File × k.State → World → World
  set_file i (f, s) w = record { fds = update i f.fd w.fds; kernel = s }

  abbrev pub set_files : ℕ → ℕ → File × File × k.State → World → World
  set_files i j (f, src, s) w = record { fds = update j src.fd (update i f.fd w.fds); kernel = s }

  -- Object `i` is made, assigned to or destroyed; a new one is made where none is alive.
  pub data Step (w w' : World) : Type 0 where
    made : (i : ℕ) → IsIdle (w.fds i) → w' ≡ set_file i (File.empty, w.kernel) w → Step w w'
    opened :
        (i : ℕ) (pathname : List ℕ) (flags mode : ℕ)
        → IsIdle (w.fds i)
        → w' ≡ set_file i (open_file k pathname flags mode w.kernel) w
        → Step w w'
    copied :
        (i j n : ℕ) (old : ℤ)
        → IsIdle (w.fds i)
        → w.fds j ≡ pos n
        → w' ≡ set_file i (copy k old (file w j) w.kernel) w
        → Step w w'
    copy_assigned :
        (i j : ℕ)
        → i ≢ j
        → w' ≡ set_file i (copy_assign k (file w i) (file w j) w.kernel) w
        → Step w w'
    moved :
        (i j : ℕ)
        → i ≢ j
        → IsIdle (w.fds i)
        → w' ≡ set_files i j ((move k (file w j)).0, (move k (file w j)).1, w.kernel) w
        → Step w w'
    move_assigned :
        (i j : ℕ)
        → i ≢ j
        → w' ≡ set_files i j (move_assign k (file w i) (file w j) w.kernel) w
        → Step w w'
    move_assigned_self :
        (i : ℕ) → w' ≡ set_file i (move_assign_self k (file w i) w.kernel) w → Step w w'
    destroyed : (i : ℕ) → w' ≡ set_file i (File.empty, destroy k (file w i) w.kernel) w → Step w w'

  pub data Reach (w : World) : World → Type 0 where
    here : Reach w w
    next : {u v : World} → Reach w u → Step u v → Reach w v

abbrev pub AllIdle : (k : Kernel) → World k → Type 0
AllIdle k w = (i : ℕ) → IsIdle (w.fds i)

update_twice {ℓ} :
    {A : Type ℓ} (i : ℕ) (a b : A) (f : ℕ → A) → update i b (update i a f) ≡ update i b f
update_twice i a b f = fun_ext λ j. ground arith

update_other {ℓ} : {A : Type ℓ} (i j : ℕ) (a : A) (f : ℕ → A) → i ≢ j → update i a f j ≡ f j
update_other i j a f h = ground arith

module _ (k : Kernel) (posix : IsPosix k) where
  abbrev opens : k.State → ℕ → Bool
  opens = posix.is_open

  dup_fd_fresh :
      (v : ℤ) (s : k.State) → GivesFresh (opens s) (opens (dup_fd k v s).1) (dup_fd k v s).0
  unfolding dup_fd
  dup_fd_fresh (pos n) s = posix.dup_fresh n s
  dup_fd_fresh (negsuc n) s = inl (refl, λ m. refl)

  -- `close_fd` of an object leaves it without a descriptor.
  abbrev Closes : (ℕ → Bool) → (ℕ → ℤ) → ℕ → ℤ × k.State → Type 0
  Closes base fds i (v, s) = IsIdle v × IsOwned base (update i v fds) (opens s)

  close_fd-Closes :
      (base : ℕ → Bool) (fds : ℕ → ℤ) (i : ℕ) (v : ℤ) (s : k.State)
      → IsOwned base fds (opens s)
      → fds i ≡ v
      → Closes base fds i (close_fd k v s)
  unfolding close_fd
  close_fd-Closes base fds i (pos zero) s w e =
      (refl, idle-IsOwned base fds (opens s) w i (pos zero) (ap pos_part e) refl)
  close_fd-Closes base fds i (pos (suc n)) s w e = (
    refl,
    closed-IsOwned base fds (opens s) w i n (opens (k.close (suc n) s)) e
        (λ m. posix.close_lem (suc n) m s),
  )
  close_fd-Closes base fds i (negsuc n) s w e =
      (refl, idle-IsOwned base fds (opens s) w i (negsuc n) (ap pos_part e) refl)

  abbrev Owned : (ℕ → Bool) → World k → Type 0
  Owned base w = IsOwned base w.fds (opens w.kernel)

  destroyed-IsOwned :
      (base : ℕ → Bool) (w : World k) (i : ℕ)
      → Owned base w
      → Owned base (set_file k i (File.empty, destroy k (file k w i) w.kernel) w)
  unfolding destroy
  destroyed-IsOwned base w i h =
      let (idle, owned) = close_fd-Closes base w.fds i (w.fds i) w.kernel h refl in
      subst (λ f. IsOwned base f (opens (close_fd k (w.fds i) w.kernel).1))
        (update_twice i (close_fd k (w.fds i) w.kernel).0 (negsuc 0) w.fds)
        (idle-IsOwned base _ _ owned i (negsuc 0) (ground arith) refl)

  copy_assigned-IsOwned :
      (base : ℕ → Bool) (w : World k) (i j : ℕ)
      → Owned base w
      → Owned base (set_file k i (copy_assign k (file k w i) (file k w j) w.kernel) w)
  unfolding copy_assign
  copy_assigned-IsOwned base w i j h =
      let (v, s) : ℤ × k.State = close_fd k (w.fds i) w.kernel in
      let (idle, owned) = close_fd-Closes base w.fds i (w.fds i) w.kernel h refl in
      subst (λ f. IsOwned base f (opens (dup_fd k (w.fds j) s).1))
        (update_twice i v (dup_fd k (w.fds j) s).0 w.fds)
        (fresh-IsOwned base _ _ owned i _ _ (ground arith) (dup_fd_fresh (w.fds j) s))

  move_assigned-IsOwned :
      (base : ℕ → Bool) (w : World k) (i j : ℕ)
      → i ≢ j
      → Owned base w
      → Owned base (set_files k i j (move_assign k (file k w i) (file k w j) w.kernel) w)
  unfolding move_assign
  move_assigned-IsOwned base w i j d h =
      let (v, s) : ℤ × k.State = close_fd k (w.fds i) w.kernel in
      let (idle, owned) = close_fd-Closes base w.fds i (w.fds i) w.kernel h refl in
      subst (λ f. IsOwned base f (opens s))
        (ap (λ x. update j v (update i x (update i v w.fds))) (update_other i j v w.fds d)
          ∙ ap (update j v) (update_twice i v (w.fds j) w.fds))
        (moved-IsOwned base _ _ owned i j v d (ground arith) idle)

  Step-IsOwned : (base : ℕ → Bool) (w w' : World k) → Step k w w' → Owned base w → Owned base w'
  unfolding open_file copy move move_assign_self
  Step-IsOwned base w w' (made i idle e) h =
      subst (Owned base) (sym e) (idle-IsOwned base _ _ h i (negsuc 0) idle refl)
  Step-IsOwned base w w' (opened i pathname flags mode idle e) h =
      subst (Owned base) (sym e)
        (fresh-IsOwned base _ _ h i _ _ idle (posix.open_path_fresh pathname flags mode w.kernel))
  Step-IsOwned base w w' (copied i j n old idle src e) h =
      subst (Owned base) (sym e)
        (rw (src, copy) (fresh-IsOwned base _ _ h i _ _ idle (posix.dup_fresh n w.kernel)))
  Step-IsOwned base w w' (copy_assigned i j d e) h =
      subst (Owned base) (sym e) (copy_assigned-IsOwned base w i j h)
  Step-IsOwned base w w' (moved i j d idle e) h =
      subst (Owned base) (sym e) (moved-IsOwned base _ _ h i j (negsuc 0) d idle refl)
  Step-IsOwned base w w' (move_assigned i j d e) h =
      subst (Owned base) (sym e) (move_assigned-IsOwned base w i j d h)
  Step-IsOwned base w w' (move_assigned_self i e) h =
      subst (Owned base) (sym e) (close_fd-Closes base w.fds i (w.fds i) w.kernel h refl).1
  Step-IsOwned base w w' (destroyed i e) h =
      subst (Owned base) (sym e) (destroyed-IsOwned base w i h)

  Reach-IsOwned : {w w' : World k} (base : ℕ → Bool) → Reach k w w' → Owned base w → Owned base w'
  Reach-IsOwned base here h = h
  Reach-IsOwned base (next r st) h = Step-IsOwned base _ _ st (Reach-IsOwned base r h)

  start-IsOwned : (w : World k) → opens w.kernel 0 ≡ true → AllIdle k w → Owned (opens w.kernel) w
  start-IsOwned w z idle = record {
    input_base = z;
    base_open = λ m b. b;
    owned_open = λ i m e. ground (arith, idle i);
    apart = λ i m e. ground (arith, idle i);
    alone = λ i j m e e'. ground (arith, idle i);
    no_leak = λ m o b. ground arith;
  }

  -- Files neither leak descriptors nor close those of others. Over a kernel that is POSIX in its
  -- descriptors and has 0 open, from objects without descriptors to objects without descriptors,
  -- whatever files a program opens, copies (from objects with a descriptor), assigns, moves and
  -- destroys, the same descriptors are open after as before.
  pub Reach-no_leak :
      (w w' : World k)
      → opens w.kernel 0 ≡ true
      → AllIdle k w
      → Reach k w w'
      → AllIdle k w'
      → (m : ℕ) → opens w'.kernel m ≡ opens w.kernel m
  Reach-no_leak w w' z idle r idle' m =
      let h : Owned (opens w.kernel) w' =
        Reach-IsOwned (opens w.kernel) r (start-IsOwned w z idle) in
      elim (Bool-cases (opens w.kernel m)) [
        | inl b ↦ h.base_open m b ∙ sym b
        | inr b ↦ elim (Bool-cases (opens w'.kernel m)) [
          | inl o ↦ let (i, e) = h.no_leak m o b in absurd (ground (arith, e, idle' i, z, b))
          | inr o ↦ o ∙ sym b
        ]
      ]

  -- Over a kernel that is POSIX in its descriptors and has 0 open, from objects without descriptors,
  -- after any opening, copying, assigning, moving and destroying of files, a descriptor above 0 in an
  -- object is open, and was not open at the start.
  pub Reach-Owns :
      (w w' : World k) (i m : ℕ)
      → opens w.kernel 0 ≡ true
      → AllIdle k w
      → Reach k w w'
      → w'.fds i ≡ pos (suc m)
      → (opens w'.kernel (suc m) ≡ true) × (opens w.kernel (suc m) ≡ false)
  Reach-Owns w w' i m z idle r e =
      let h : Owned (opens w.kernel) w' =
        Reach-IsOwned (opens w.kernel) r (start-IsOwned w z idle) in
      (h.owned_open i m e, h.apart i m e)

  -- Over a kernel that is POSIX in its descriptors and has 0 open, from objects without descriptors,
  -- after any opening, copying, assigning, moving and destroying of files, no two objects have the same
  -- descriptor above 0.
  Reach-alone :
      (w w' : World k) (i j m : ℕ)
      → opens w.kernel 0 ≡ true
      → AllIdle k w
      → Reach k w w'
      → w'.fds i ≡ pos (suc m)
      → w'.fds j ≡ pos (suc m)
      → i ≡ j
  Reach-alone w w' i j m z idle r e e' =
      (Reach-IsOwned (opens w.kernel) r (start-IsOwned w z idle)).alone i j m e e'
