-- ===== src/MBot/Life/Descriptors.antt =====
-- The descriptor that an MBot holds from its constructor to its destructor (src/mbot/mbot.cpp).
use rob320_p.Base.{
  ℕ, zero, suc, ◌≢◌, ◌≡◌, ◌⊎◌, List, [], ◌∷◌, length, true, false, some, All, map, ◌==◌,
  if◌then◌else◌, refl, arith, ap, sym, ◌∙◌, Bool-cases, inl, inr,
}
use mathlib.Core.Path.{subst}
use rob320_p.Base.Int.{ℤ, pos, negsuc, ltb_ℤ}
use rob320_p.Ipc.Kernel.{Kernel, IsPosix, GivesFresh}
use rob320_p.Ipc.File
use rob320_p.Ipc.File.{File, ok}
use rob320_p.MBot.Timesync.{Tick, writes, tick_packet, timesync-writes}
use rob320_p.MBot.Life.{
  Termios, Terminal, MBot, open_port, set_up, start, construct, destroy, port_name, port_flags,
}

module _ (k : Kernel) (posix : IsPosix k) where
  open posix use {is_open}

  -- The calls on the terminal, and write, open and close no descriptor.
  pub record IsCalm (t : Terminal k.State) : Type 0 where
    pub tcgetattr_open :
        (fd n : ℕ) (options : Termios) (s : k.State)
        → is_open ((t.tcgetattr fd options s).2) n ≡ is_open s n
    pub tcsetattr_open :
        (fd actions n : ℕ) (options : Termios) (s : k.State)
        → is_open (t.tcsetattr fd actions options s) n ≡ is_open s n
    pub tcflush_open :
        (fd queue n : ℕ) (s : k.State) → is_open (t.tcflush fd queue s) n ≡ is_open s n
    pub write_open :
        (fd n : ℕ) (bs : List ℕ) (s : k.State) → is_open (k.write fd bs s).1 n ≡ is_open s n

  -- The same descriptors are open.
  abbrev pub SameOpen : k.State → k.State → Type 0
  SameOpen s s' = (n : ℕ) → is_open s' n ≡ is_open s n

  -- `fd` is open beside those that were, of which it was none.
  abbrev pub OpenBeside : ℕ → k.State → k.State → Type 0
  OpenBeside fd s s' =
      (is_open s fd ≡ false) × ((n : ℕ) → is_open s' n ≡ (if fd == n then true else is_open s n))

  close_beside : (fd : ℕ) (s s' : k.State) → OpenBeside fd s s' → SameOpen s (k.close fd s')
  close_beside fd s s' (new, h) n = ground (arith, posix.close_lem fd n s', h n, new)

  close_twice :
      (fd : ℕ) (s s' : k.State) → is_open s fd ≡ false → SameOpen s s' → SameOpen s (k.close fd s')
  close_twice fd s s' new h n = ground (arith, posix.close_lem fd n s', h n, new)

  module _ (t : Terminal k.State) (calm : IsCalm t) where
    open calm use {tcgetattr_open, tcsetattr_open, tcflush_open, write_open}

    set_up-SameOpen : (fd : ℕ) (old : Termios) (s : k.State) → SameOpen s (set_up k t fd old s).1
    unfolding set_up
    set_up-SameOpen fd old s n =
        tcgetattr_open fd n _ _
        ∙ tcsetattr_open fd 0 n _ _
        ∙ tcflush_open fd 0 n _
        ∙ tcgetattr_open fd n old s

    -- How an MBot comes out of its constructor: without the port, with it and its thread, or with the number of
    -- a descriptor that is closed.
    abbrev pub Constructed : k.State → MBot × k.State → Type 0
    Constructed s (m, s') =
        ((ok m.file ≡ false) × (m.thread ≡ false) × (m.file.fd ≡ negsuc 0) × SameOpen s s')
        ⊎ (((fd : ℕ) × (m.file.fd ≡ pos fd) × (m.thread ≡ true) × OpenBeside fd s s')
            ⊎ ((fd : ℕ) × (m.file.fd ≡ pos fd)
                × (m.thread ≡ false)
                × (is_open s fd ≡ false)
                × SameOpen s s'))

    start-Constructed :
        (old : Termios) (z : ℤ) (s s' : k.State)
        → GivesFresh (is_open s) (is_open s') z
        → Constructed s (start k t (record { fd = z }) old s')
    unfolding start ok
    start-Constructed old z s s' (inl (e, same)) =
        subst (λ z. Constructed s (start k t (record { fd = z }) old s')) (sym e)
          (inl (refl, refl, refl, same))
    start-Constructed old z s s' (inr (fd, e, new, h)) =
        let up = set_up-SameOpen fd old s' in
        subst (λ z. Constructed s (start k t (record { fd = z }) old s')) (sym e)
          (elim (Bool-cases (set_up k t fd old s').0) [
            | inl good ↦ rw (start, good) (inr (inl (fd, refl, refl, (new, λ n. up n ∙ h n))))
            | inr bad ↦
                rw (start, bad)
                  (inr (
                    inr (
                      fd,
                      refl,
                      refl,
                      new,
                      close_beside fd s (set_up k t fd old s').1 (new, λ n. up n ∙ h n),
                    )))
          ])

    pub construct-Constructed : (old : Termios) (s : k.State) → Constructed s (construct k t old s)
    unfolding construct open_port File.open_file
    construct-Constructed old s =
        start-Constructed old (open_port k s).0.fd s (open_port k s).1
          (posix.open_path_fresh port_name port_flags 0 s)

  -- A descriptor above 0 is closed.
  destroy_file :
      (f : File) (fd : ℕ) (s : k.State) → fd ≢ 0 → f.fd ≡ pos fd → File.destroy k f s ≡ k.close fd s
  unfolding File.destroy
  destroy_file f zero s d e = absurd (d refl)
  destroy_file f (suc n) s d e = rw (File.destroy, e) refl

  destroy_closed :
      (m : MBot) (ticks : List Tick) (s : k.State)
      → m.thread ≡ false
      → m.file.fd ≡ negsuc 0
      → destroy k m ticks s ≡ some s
  unfolding destroy File.destroy
  destroy_closed m ticks s e f = rw (destroy, e, File.destroy, f) refl

  destroy_idle :
      (m : MBot) (ticks : List Tick) (fd : ℕ) (s : k.State)
      → fd ≢ 0
      → m.thread ≡ false
      → m.file.fd ≡ pos fd
      → destroy k m ticks s ≡ some (k.close fd s)
  unfolding destroy
  destroy_idle m ticks fd s d e f = rw (destroy, e) (ap some (destroy_file m.file fd s d f))

  destroy_joined :
      (m : MBot) (ticks : List Tick) (fd : ℕ) (s : k.State)
      → All (λ (t : Tick). length t.old ≡ 16) ticks
      → fd ≢ 0
      → m.thread ≡ true
      → m.file.fd ≡ pos fd
      → destroy k m ticks s ≡ some (k.close fd (writes k m.file (map tick_packet ticks) s))
  unfolding destroy
  destroy_joined m ticks fd s h d e f =
      rw (destroy, e, timesync-writes k m.file ticks s h) (ap some (destroy_file m.file fd _ d f))

  module _ (t : Terminal k.State) (calm : IsCalm t) where
    above : (s : k.State) (fd : ℕ) → is_open s 0 ≡ true → is_open s fd ≡ false → fd ≢ 0
    above s fd z new e = ground (arith, z, new, e)

    write-SameOpen :
        (z : ℤ) (b : List ℕ) (s : k.State) → SameOpen s (File.write k (record { fd = z }) b s).1
    unfolding File.write
    write-SameOpen (pos fd) b s n = calm.write_open fd n b s
    write-SameOpen (negsuc m) b s n = refl

    writes-SameOpen : (f : File) (bs : List (List ℕ)) (s : k.State) → SameOpen s (writes k f bs s)
    unfolding writes
    writes-SameOpen f [] s n = refl
    writes-SameOpen f (b ∷ bs) s n = elim (Bool-cases (ltb_ℤ (File.write k f b s).0 (pos 0))) [
      | inl failed ↦ rw (writes, failed) (write-SameOpen f.fd b s n)
      | inr went ↦
          rw (writes, went)
            (writes-SameOpen f bs (File.write k f b s).1 n ∙ write-SameOpen f.fd b s n)
    ]

    restores :
        (m : MBot) (s s' : k.State) (ticks : List Tick)
        → is_open s 0 ≡ true
        → Constructed t calm s (m, s')
        → All (λ (t : Tick). length t.old ≡ 16) ticks
        → (s'' : k.State) × (destroy k m ticks s' ≡ some s'') × SameOpen s s''
    restores m s s' ticks z (inl (closed, idle, e, same)) h =
        (s', destroy_closed m ticks s' idle e, same)
    restores m s s' ticks z (inr (inl (fd, e, runs, beside))) h =
        let after : k.State = writes k m.file (map tick_packet ticks) s' in
        (
          k.close fd after,
          destroy_joined m ticks fd s' h (above s fd z beside.0) runs e,
          close_beside fd s after
              (beside.0, λ n. writes-SameOpen m.file (map tick_packet ticks) s' n ∙ beside.1 n),
        )
    restores m s s' ticks z (inr (inr (fd, e, idle, new, same))) h = (
      k.close fd s',
      destroy_idle m ticks fd s' (above s fd z new) idle e,
      close_twice fd s s' new same,
    )

    -- Over a kernel that is POSIX in its descriptors and has 0 open, and a terminal whose calls, as
    -- write does, open and close none: the constructor of MBot leaves no port and no thread, or the
    -- port open, that was not, and the thread, or after a last tcgetattr that fails the number of a
    -- descriptor that is closed and no thread; and if nothing else opens or closes one in between, and
    -- the buffers of the thread have 16 bytes, the destructor returns and leaves open just what was
    -- open before the constructor.
    pub destroy-construct :
        (old : Termios) (s : k.State) (ticks : List Tick)
        → is_open s 0 ≡ true
        → All (λ (t : Tick). length t.old ≡ 16) ticks
        → Constructed t calm s (construct k t old s)
          × ((s'' : k.State) × (destroy k (construct k t old s).0 ticks (construct k t old s).1
                ≡ some s'')
              × SameOpen s s'')
    destroy-construct old s ticks z h =
        let made = construct-Constructed t calm old s in
        (made, restores (construct k t old s).0 s (construct k t old s).1 ticks z made h)

  closed_lem : (fd : ℕ) (s : k.State) → is_open (k.close fd s) fd ≡ false
  closed_lem fd s = ground (arith, posix.close_lem fd fd s)

  ok_lem : (f : File) (fd : ℕ) → f.fd ≡ pos fd → ok f ≡ true
  unfolding ok
  ok_lem f fd e = rw (ok, e) refl

  start_bad :
      (t : Terminal k.State) (old : Termios) (fd : ℕ) (s : k.State)
      → (set_up k t fd old s).0 ≡ false
      → start k t (record { fd = pos fd }) old s ≡ (
        record { file = record { fd = pos fd }; thread = false; stop_timesync_flag = false },
        k.close fd (set_up k t fd old s).1,
      )
  unfolding start
  start_bad t old fd s bad = rw (start, bad) refl

  -- If the port opens at a descriptor other than 0 and the last tcgetattr of the constructor fails,
  -- then the MBot is ok though its descriptor is closed, and its destructor, in any later state, closes
  -- the descriptor of that number, whoever has opened it meanwhile.
  pub destroy_again :
      (t : Terminal k.State) (old : Termios) (fd : ℕ) (s s' : k.State) (ticks : List Tick)
      → fd ≢ 0
      → (open_port k s).0.fd ≡ pos fd
      → (set_up k t fd old (open_port k s).1).0 ≡ false
      → (ok (construct k t old s).0.file ≡ true)
        × (is_open (construct k t old s).1 fd ≡ false)
        × ((s'' : k.State) × (destroy k (construct k t old s).0 ticks s' ≡ some s'')
            × (is_open s'' fd ≡ false))
  unfolding construct
  destroy_again t old fd s s' ticks d e bad =
      let m : MBot = record {
        file = record { fd = pos fd };
        thread = false;
        stop_timesync_flag = false;
      } in
      let made : construct k t old s ≡ (m, k.close fd (set_up k t fd old (open_port k s).1).1) =
        ap (λ z. start k t (record { fd = z }) old (open_port k s).1) e
        ∙ start_bad t old fd (open_port k s).1 bad in
      (
        ap (λ x. ok x.0.file) made ∙ ok_lem (record { fd = pos fd }) fd refl,
        ap (λ x. is_open x.1 fd) made ∙ closed_lem fd (set_up k t fd old (open_port k s).1).1,
        (
          k.close fd s',
          ap (λ x. destroy k x.0 ticks s') made ∙ destroy_idle m ticks fd s' d refl refl,
          closed_lem fd s',
        ),
      )
