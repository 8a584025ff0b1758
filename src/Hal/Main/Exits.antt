-- ===== src/Hal/Main/Exits.antt =====
-- Where `main` comes to an end.
use os.Prelude.{
  ◌∙◌, Bool-cases, inl, inr, ℕ, ◌+◌, ◌≡◌, ◌==◌, Bool, Option, some, none, arith, if◌then◌else◌,
  refl, List, [],
}
use os.Prelude.Int.{ℤ, pos, ltb_ℤ}
use os.Hal.Main.{
  Files, Host, Outcome, exited, main, boot, ended, host_call, in_exn, in_kernel_of, read_rootfs,
  memsz,
}
use os.Hal.Signals.{Signals, exn_init}
use os.Hal.Vm.{Hole, Maps}
use os.Kernel.Init.{kernel_init}
use os.Kernel.Pool.Api.{PoolApi}
use os.Kernel.Print.{panic}
use os.Kernel.Process.{Kernel, in_space, run_first}
use os.Kernel.Space.{Config, on_memory}
use os.Kernel.Start.{StartFrame, started, kernel_start}
use os.Kernel.Syscall.{Console, dbg_out}
use os.LibC.Format.{vsnprintf}
use os.Machine.Memory.Words.{load64, store64}
use os.Machine.{Run, Cmd, ok, fault, out_of_fuel, halted, >>=-eq-ok, ◌>>=◌, pure}
use os.Machine.Memory.{Memory, Ptr, null, Prog}

module _ (console : Console) (f k : ℕ) (msg : Ptr) where
  panic-returns : (fmt : Ptr) (m m' : Memory) → panic console f k msg fmt [] m ≡ ok tt m' → ⊥
  unfolding panic
  panic-returns fmt m m' h =
      let (len, m1, e1, h1) = >>=-eq-ok (vsnprintf f k msg 128 fmt []) _ h in
      let (u, m2, e2, h2) = >>=-eq-ok (dbg_out console msg len) _ h1 in cc

module _ (api : PoolApi) where
  in_space-ok :
      {A : Type 0} (p : Prog A) (a : A) (s s' : Kernel api)
      → in_space api (on_memory p) s ≡ ok a s'
      → (m : Memory) × (p s.space.memory ≡ ok a m)
        × (s' ≡ record s { space = record s.space { memory = m } })
  in_space-ok {A} p a s s' h = by_run (p s.space.memory) refl h
    where
      by_run :
          (r : Run Memory A)
          → p s.space.memory ≡ r
          → in_space api (on_memory p) s ≡ ok a s'
          → (m : Memory) × (p s.space.memory ≡ ok a m)
            × (s' ≡ record s { space = record s.space { memory = m } })
      by_run (ok b m) e h = (m, ground (arith, e, h), ground (arith, e, h))
      by_run fault e h = ground (arith, e, h)
      by_run out_of_fuel e h = ground (arith, e, h)
      by_run (halted m) e h = ground (arith, e, h)

  module _ (config : Config) (console : Console) (f k : ℕ) (frame : StartFrame) where
    started-enters :
        (first r : Option Ptr) (s s' : Kernel api)
        → started api config console f k frame first s ≡ ok r s'
        → (entry : Ptr) × (r ≡ some entry)
    unfolding started
    started-enters (some entry) r s s' h = (entry, cc)
    started-enters none r s s' h =
        let p = panic console f k frame.msg frame.failed [] in
        let (u, t, e, h') = >>=-eq-ok (in_space api (on_memory p)) _ h in
        let (m, e', same) = in_space-ok p u s t e in
        absurd (panic-returns console f k frame.msg frame.failed s.space.memory m e')

    -- `kernel_start` does not come back: it enters the first process or does not return.
    kernel_start-enters :
        (s s' : Kernel api) (r : Option Ptr)
        → kernel_start api config console f k frame s ≡ ok r s'
        → (entry : Ptr) × (r ≡ some entry)
    unfolding kernel_start
    kernel_start-enters s s' r h =
        let (u1, s1, e1, h1) =
          >>=-eq-ok (in_space api (on_memory (store64 frame.argv frame.shell))) _ h in
        let (u2, s2, e2, h2) =
          >>=-eq-ok (in_space api (on_memory (store64 (frame.argv + 8) null))) _ h1 in
        let (first, s3, e3, h3) = >>=-eq-ok (run_first api config frame.argv) _ h2 in
        started-enters first r s3 s' h3

module _ (files : Files) (api : PoolApi) (sigs : Signals) where
  abbrev pub with_memory : Host files api sigs → Memory → Host files api sigs
  with_memory s m = record s {
    kernel = record s.kernel { space = record s.kernel.space { memory = m } };
  }

  host_call-ok :
      {A : Type 0} (p : Prog A) (a : A) (s s' : Host files api sigs)
      → host_call files api sigs p s ≡ ok a s'
      → (m : Memory) × (s' ≡ with_memory s m)
  host_call-ok {A} p a s s' h = by_run (p s.kernel.space.memory) refl h
    where
      by_run :
          (r : Run Memory A)
          → p s.kernel.space.memory ≡ r
          → host_call files api sigs p s ≡ ok a s'
          → (m : Memory) × (s' ≡ with_memory s m)
      by_run (ok b m) e h = (m, ground (arith, e, h))
      by_run fault e h = ground (arith, e, h)
      by_run out_of_fuel e h = ground (arith, e, h)
      by_run (halted m) e h = ground (arith, e, h)

  in_kernel_of-ok :
      {A : Type 0} (c : Cmd (Kernel api) A) (a : A) (s s' : Host files api sigs)
      → in_kernel_of files api sigs c s ≡ ok a s'
      → (t : Kernel api) × (c s.kernel ≡ ok a t)
  in_kernel_of-ok {A} c a s s' h = by_run (c s.kernel) refl h
    where
      by_run :
          (r : Run (Kernel api) A)
          → c s.kernel ≡ r
          → in_kernel_of files api sigs c s ≡ ok a s'
          → (t : Kernel api) × (c s.kernel ≡ ok a t)
      by_run (ok b t) e h = (t, ground (arith, e, h))
      by_run fault e h = ground (arith, e, h)
      by_run out_of_fuel e h = ground (arith, e, h)
      by_run (halted t) e h = ground (arith, e, h)

  module _ (strcmp : (a b : List ℕ) → ℤ) (strstr : (haystack needle : List ℕ) → Bool)
      (text bss : Hole) (lines : Maps) (config : Config) (console : Console) (f k : ℕ)
      (frame : StartFrame) where
    abbrev boots : (rootfs : Ptr) → Option Ptr → Cmd (Host files api sigs) Outcome
    boots = boot files api sigs strcmp strstr text bss lines config console f k frame

    abbrev pub runs : (argc : ℤ) (argv : Ptr) → Cmd (Host files api sigs) Outcome
    runs = main files api sigs strcmp strstr text bss lines config console f k frame

    abbrev enters : Option Ptr → Cmd (Host files api sigs) Outcome
    enters = ended files api sigs strcmp strstr text bss lines config console f k frame

    ended-entered :
        (first : Option Ptr) (t s' : Host files api sigs) (entry : Ptr) (c : ℤ)
        → first ≡ some entry
        → enters first t ≡ ok (exited c) s'
        → ⊥
    ended-entered none t s' entry c e h = ground (arith, e)
    ended-entered (some p) t s' entry c e h = ground (arith, h)

    boot-exits :
        (rootfs : Ptr) (mem : Option Ptr) (c : ℤ) (s s' : Host files api sigs)
        → boots rootfs mem s ≡ ok (exited c) s'
        → (c ≡ pos 1) × (s' ≡ s)
    unfolding boot
    boot-exits rootfs none c s s' h = (ground (arith, h), ground (arith, h))
    boot-exits rootfs (some mem) c s s' h =
        let s1 : Host files api sigs = record s {
          kernel = record s.kernel {
            space = record s.kernel.space {
              globals = kernel_init rootfs mem memsz s.kernel.space.globals;
            };
          };
        } in
        let start = kernel_start api config console f k frame in
        let go = in_kernel_of files api sigs start in
        let (u2, s2, e2, h2) =
          >>=-eq-ok
            (in_exn files api sigs
              (λ kern. exn_init sigs strcmp strstr text bss kern.space.globals lines))
            (λ res. go >>= enters) {s = s1} h in
        let (first, s3, e3, h3) = >>=-eq-ok go enters {s = s2} h2 in
        let (t, ran) = in_kernel_of-ok start first s2 s3 e3 in
        let (entry, some_entry) =
          kernel_start-enters api config console f k frame s2.kernel t first ran in
        absurd (ended-entered first s3 s' entry c some_entry h3)

    -- Only memory has changed, and the result is 1.
    Exits : ℤ → (s s' : Host files api sigs) → Type 0
    Exits c s s' = (c ≡ pos 1) × (m : Memory) × (s' ≡ with_memory s m)

    Exits-behind :
        {A : Type 0} (p : Prog A) (next : A → Cmd (Host files api sigs) Outcome) (c : ℤ)
        (s s' : Host files api sigs)
        → ((a : A) (t : Host files api sigs) → next a t ≡ ok (exited c) s' → Exits c t s')
        → (host_call files api sigs p >>= next) s ≡ ok (exited c) s'
        → Exits c s s'
    unfolding Exits
    Exits-behind p next c s s' rest h =
        let (a, t, e, h') = >>=-eq-ok (host_call files api sigs p) next {s = s} h in
        let (m, same) = host_call-ok p a s t e in
        let (one, m', end) = rest a t h' in (one, m', end ∙ rw same refl)

    Exits-once :
        (c : ℤ) (s s' : Host files api sigs)
        → ok (exited (pos 1)) s ≡ ok (exited c) s'
        → Exits c s s'
    unfolding Exits
    Exits-once c s s' h = (ground (arith, h), s.kernel.space.memory, ground (arith, h))

    tested-Exits :
        (rootfs : Ptr) (c : ℤ) (s s' : Host files api sigs)
        → (if rootfs == null
              then pure (exited (pos 1))
              else host_call files api sigs (files.mmap memsz) >>= boots rootfs)
            s
          ≡ ok (exited c) s'
        → Exits c s s'
    unfolding Exits
    tested-Exits rootfs c s s' h = elim (Bool-cases (rootfs == null)) [
      | inl e ↦ Exits-once c s s' (rw e at h)
      | inr e ↦
          Exits-behind (files.mmap memsz) (boots rootfs) c s s'
            (λ mem t h'.
              let (one, same) = boot-exits rootfs mem c t s' h' in
              (one, t.kernel.space.memory, same))
            (rw e at h)
    ]

    -- `main` that ends returns 1, and of its state has changed only memory: it ends where it has no
    -- archive or no arena, before anything of the kernel is set up. Once it has started the kernel,
    -- it enters the first process or does not return.
    pub main-exits :
        (argc : ℤ) (argv : Ptr) (c : ℤ) (s s' : Host files api sigs)
        → runs argc argv s ≡ ok (exited c) s'
        → (c ≡ pos 1) × (m : Memory) × (s' ≡ with_memory s m)
    unfolding main Exits
    main-exits argc argv c s s' h = elim (Bool-cases (ltb_ℤ (pos 1) argc)) [
      | inl more ↦
          Exits-behind (load64 (argv + 8)) _ c s s'
            (λ cpio t.
              Exits-behind (read_rootfs files cpio) _ c t s'
                (λ rootfs u. tested-Exits rootfs c u s'))
            (rw more at h)
      | inr few ↦ Exits-once c s s' (rw few at h)
    ]
