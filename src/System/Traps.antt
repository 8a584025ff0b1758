-- ===== src/System/Traps.antt =====
-- A step of the whole: the chain grows by one, loses its top or stays.
use mathlib.Core.List.{Mem}
use os.Prelude.{
  ℕ, ◌≡◌, ◌⊎◌, inl, inr, List, ◌∷◌, arith, refl, ◌∙◌, true, get_elem?, Option, some, none,
}
use os.Prelude.Int.{ℤ, pos, negsuc}
use os.Machine.{Run, ok, fault, out_of_fuel, halted, >>=-eq-ok}
use os.Machine.Memory.{Ptr, Prog}
use os.Machine.Memory.Words.{load16}
use os.Hal.Trap.{syscall_hnd, args_of}
use os.Hal.Trap.Exit.{behind}
use os.Kernel.Args.{sys_getargv}
use os.Kernel.Elf.{to_int}
use os.Kernel.Pool.Api.{PoolApi}
use os.Kernel.Process.{Kernel, in_space, int_word}
use os.Kernel.Process.Run.{sys_run-Started}
use os.Kernel.Space.{Config, on_memory}
use os.Kernel.Syscall.{Syscall, Args, sys_read, sys_write, Console, handler, syscall_do, sys_table}
use os.System.{Nested, Runs, runs, Step, trap, Given}
use os.System.End.{sys_exit-Nested}
use os.System.Run.{sys_run-Result}
use os.System.Start.{sys_run-Nested, sys_run_fails-Nested}

-- The chain `p`, `ps` before a step and `p'`, `ps'` behind it: the same, or with a new process on
-- top, or without its top.
abbrev pub Moves : (p : Ptr) (ps : List Ptr) (p' : Ptr) (ps' : List Ptr) → Type 0
Moves p ps p' ps' =
    ((p' ≡ p) × (ps' ≡ ps)) ⊎ ((¬ Mem p' (p ∷ ps)) × (ps' ≡ p ∷ ps)) ⊎ (ps ≡ p' ∷ ps')

module _ (api : PoolApi) where
  abbrev pub Moved : (p : Ptr) (ps : List Ptr) (s' : Kernel api) → Type 0
  Moved p ps s' = (p' : Ptr) × (ps' : List Ptr) × Moves p ps p' ps' × Nested api s' p' ps'

  pub Runs-Nested :
      (s s' : Kernel api) (p : Ptr) (ps : List Ptr)
      → Runs api s s'
      → Nested api s p ps
      → Nested api s' p ps
  Runs-Nested s s' p ps r nested = record {
    curp = r.curp ∙ nested.curp;
    not_null = nested.not_null;
    links = rw r.procs nested.links;
    live = rw r.procpool nested.live;
    arena = rw (r.globals, r.execbufp) nested.arena;
    regions = rw (r.globals, r.execbufp, r.procs) nested.regions;
  }

  -- A command on memory changes nothing else.
  in_space-Runs :
      (prog : Prog ℤ) (r : ℤ) (s s' : Kernel api)
      → in_space api (on_memory prog) s ≡ ok r s'
      → Runs api s s'
  in_space-Runs prog r s s' h = record {
    procpool = ground arith;
    procs = ground arith;
    curp = ground arith;
    globals = ground arith;
    execbufp = ground arith;
  }

  module _ (config : Config) (args : ℕ) (console : Console) where
    handler-Moved :
        (c : Syscall) (a : Args) (r : ℤ) (s s' : Kernel api) (p : Ptr) (ps : List Ptr)
        → handler api config args console c a s ≡ ok r s'
        → Given api s s'
        → Nested api s p ps
        → Moved p ps s'
    handler-Moved Syscall.run a r s s' p ps h mem nested =
        elim (sys_run-Result api config a.arg1 a.arg2 s s' r h).1 [
          | inl z ↦
              let (fresh, n) =
                sys_run-Nested api config a.arg1 a.arg2 s s' nested (rw z at h)
                  (mem (sys_run-Started api config a.arg1 a.arg2 s s' (rw z at h)).prev) in
              (_, _, inr (inl (fresh, refl)), n)
          | inr z ↦ (
            p,
            ps,
            inl (refl, refl),
            sys_run_fails-Nested api config a.arg1 a.arg2 s s' nested (rw z at h),
          )
        ]
    handler-Moved Syscall.exit a r s s' p ps h mem nested =
        let (q, rest, e, n) = sys_exit-Nested api (to_int a.arg1) r s s' h ps nested in
        (q, rest, inr (inr e), n)
    handler-Moved Syscall.getargv a r s s' p ps h mem nested = (
      p,
      ps,
      inl (refl, refl),
      Runs-Nested s s' p ps
          (in_space-Runs
            (sys_getargv config.chars args (s.procs s.curp).argv a.arg1 (to_int a.arg2) a.arg3
              (to_int a.arg4))
            r s s' (ground (arith, h)))
          nested,
    )
    handler-Moved Syscall.write a r s s' p ps h mem nested = (
      p,
      ps,
      inl (refl, refl),
      Runs-Nested s s' p ps (in_space-Runs (sys_write console a.arg2 a.arg3) r s s' h) nested,
    )
    handler-Moved Syscall.read a r s s' p ps h mem nested = (
      p,
      ps,
      inl (refl, refl),
      Runs-Nested s s' p ps (in_space-Runs (sys_read console a.arg2 a.arg3) r s s' h) nested,
    )

    -- What a trap comes to: the handler that the table has for the number, from behind the
    -- instruction, and its result in the register of the context that is then current.
    pub record Handled (s s' : Kernel api) : Type 0 where
      pub call : Syscall
      pub result : ℤ
      pub mid : Kernel api
      pub runs :
          handler api config args console call (args_of api s.ctx) (record s { ctx = behind s.ctx })
          ≡ ok result mid
      pub returns : s' ≡ record mid { ctx = record mid.ctx { rax = int_word result } }

    dispatched :
        (n : ℤ) (a : Args) (ret : ℕ) (s s' : Kernel api)
        → syscall_do api config args console n a s ≡ ok ret s'
        → (c : Syscall) × (r : ℤ) × (handler api config args console c a s ≡ ok r s')
          × (ret ≡ int_word r)
    unfolding syscall_do
    dispatched (pos n) a ret s s' h = by_entry (get_elem? sys_table n) refl
      where
        by_entry :
            (e : Option Syscall)
            → get_elem? sys_table n ≡ e
            → (c : Syscall) × (r : ℤ) × (handler api config args console c a s ≡ ok r s')
              × (ret ≡ int_word r)
        by_entry none e = ground arith
        by_entry (some c) e =
            let (r, t, h₁, h₂) =
              >>=-eq-ok (handler api config args console c a) (λ r. ok (int_word r)) {s = s}
                {s' = s'} {b = ret} (ground arith) in
            (c, r, ground arith, ground arith)
    dispatched (negsuc n) a ret s s' h = ground arith

    taken :
        (r : Run (Kernel api) ℕ) (s s' : Kernel api)
        → syscall_do api config args console
            (to_int s.ctx.rax)
            (args_of api s.ctx)
            (record s { ctx = behind s.ctx })
          ≡ r
        → syscall_hnd api config args console s ≡ ok true s'
        → (ret : ℕ) × (t : Kernel api) × (r ≡ ok ret t)
          × (s' ≡ record t { ctx = record t.ctx { rax = ret } })
    unfolding syscall_hnd load16
    taken (ok ret t) s s' e h = (ret, t, refl, ground arith)
    taken fault s s' e h = ground arith
    taken out_of_fuel s s' e h = ground arith
    taken (halted t) s s' e h = ground arith

    pub syscall_hnd-Handled :
        (s s' : Kernel api) → syscall_hnd api config args console s ≡ ok true s' → Handled s s'
    syscall_hnd-Handled s s' h =
        let (ret, t, e, end) = taken _ s s' refl h in
        let (c, r, done, word) =
          dispatched (to_int s.ctx.rax) (args_of api s.ctx) ret (record s { ctx = behind s.ctx }) t
            e in
        record { call = c; result = r; mid = t; runs = done; returns = end ∙ rw word }

    -- What a step does to the chain, where a process that it starts is given memory.
    pub Step-Moved :
        (s s' : Kernel api) (p : Ptr) (ps : List Ptr)
        → Step api config args console s s'
        → Given api s s'
        → Nested api s p ps
        → Moved p ps s'
    Step-Moved s s' p ps (runs r) given nested =
        (p, ps, inl (refl, refl), Runs-Nested s s' p ps r nested)
    Step-Moved s s' p ps (trap h) given nested =
        let t = syscall_hnd-Handled s s' h in
        let begun : Nested api (record s { ctx = behind s.ctx }) p ps =
          Runs-Nested s _ p ps
            (record { procpool = refl; procs = refl; curp = refl; globals = refl; execbufp = refl })
            nested in
        let (q, qs, moves, n) =
          handler-Moved t.call (args_of api s.ctx) t.result _ t.mid p ps t.runs
            (rw t.returns at given) begun in
        (
          q,
          qs,
          moves,
          Runs-Nested t.mid s' q qs
              (record {
                procpool = rw t.returns;
                procs = rw t.returns;
                curp = rw t.returns;
                globals = rw t.returns;
                execbufp = rw t.returns;
              })
              n,
        )
