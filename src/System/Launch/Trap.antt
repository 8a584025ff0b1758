-- ===== src/System/Launch/Trap.antt =====
-- A trap for `run` starts the program.
use mathlib.Core.List.{Mem, mem-cons}
use mathlib.Core.Logic.Or
use os.Prelude.{ℕ, ◌+◌, ◌-◌, ◌<◌, ◌≡◌, List, ◌∷◌, length, arith, refl, true, ◌∙◌, sym, ap}
use os.Hal.Context.{sub64, ctx_save}
use os.Hal.Trap.{syscall_hnd}
use os.Hal.Trap.Exit.{Traps, behind, trap_run}
use os.Kernel.Cpio.Archive.{Entry}
use os.Kernel.Elf.Header.{Header}
use os.Kernel.Elf.Segment.{pages}
use os.Kernel.Pool.Api.{PoolApi}
use os.Kernel.Process.{Kernel, stack_size}
use os.Kernel.Process.Run.{sys_run-Started}
use os.Kernel.Space.{Config}
use os.Kernel.Syscall.{Syscall, Console}
use os.Machine.{ok}
use os.Machine.Memory.{Ptr}
use os.Machine.Memory.Region.{Holds, SameOutside}
use os.System.{Nested}
use os.System.Launch.{mark_of, marked, CanStart}
use os.System.Launch.Run.{started, sys_run-started}
use os.System.Start.{sys_run-Nested}
use os.System.Traps.{Runs-Nested}

-- 16 bytes below the top of the stack, which is behind a program of that many pages.
abbrev pub stack_at : (mark : Ptr) (memsz : ℕ) → ℕ
stack_at mark memsz = sub64 (mark + pages memsz + stack_size) 16

module _ (api : PoolApi) where
  abbrev pub newp_of : Kernel api → Ptr
  newp_of s = (api.alloc s.procpool).1

  -- A new process is on top of the chain and about to go on at the program's entry in its copy,
  -- with the other registers of its caller, whose own are saved behind the trap.
  pub record Launched (s s' : Kernel api) (p : Ptr) (ps : List Ptr) (entry : ℕ) (bytes : List ℕ)
      (vaddr memsz : ℕ) : Type 0 where
    pub nested : Nested api s' (newp_of s) (p ∷ ps)
    pub fresh : ¬ Mem (newp_of s) (p ∷ ps)
    pub ctx : s'.ctx ≡ record (behind s.ctx) {
      rax = 0;
      rsp = stack_at (mark_of s.space) memsz;
      rbp = stack_at (mark_of s.space) memsz;
      rip = mark_of s.space + (entry - vaddr);
    }
    pub argv : (s'.procs (newp_of s)).argv ≡ s.ctx.rbx
    pub code : (s'.procs (newp_of s)).code ≡ s.ctx.rcx
    pub saved : (s'.procs p).savectx ≡ behind s.ctx
    pub holds : Holds s'.space.memory (mark_of s.space) bytes
    pub same : SameOutside (mark_of s.space) memsz s.space.memory s'.space.memory

  module _ (config : Config) (args : ℕ) (console : Console) (s : Kernel api) {e : Entry}
      {h : Header} {bytes : List ℕ} {vaddr memsz offset filesz : ℕ} where
    -- A process of the chain traps for `run`, with a free block in the pool and with a sound
    -- program of the archive, named by the first of the arguments, for which the arena has room
    -- with a stack: the trap is handled, and the program is started.
    pub run_starts :
        (p : Ptr) (ps : List Ptr)
        → Nested api s p ps
        → length (p ∷ ps) < api.capacity
        → Traps api config args console s Syscall.run
        → CanStart config (marked s.space) s.ctx.rbx e h bytes vaddr memsz offset filesz
        → (s' : Kernel api) × (syscall_hnd api config args console s ≡ ok true s')
          × Launched s s' p ps h.entry bytes vaddr memsz
    unfolding ctx_save
    run_starts p ps n free t can =
        let begun : Kernel api = record s { ctx = behind s.ctx } in
        let n' : Nested api begun p ps =
          Runs-Nested api s begun p ps
            (record { procpool = refl; procs = refl; curp = refl; globals = refl; execbufp = refl })
            n in
        let block = api.alloc-ok s.procpool (p ∷ ps) n.live free in
        let (m, run, mem, holds, same) =
          sys_run-started api config s.ctx.rbx s.ctx.rcx begun can n.arena (rw n.curp n.not_null)
            block.0 in
        let s1 : Kernel api = started api config s.ctx.rbx s.ctx.rcx begun can m in
        let (fresh, n1) = sys_run-Nested api config s.ctx.rbx s.ctx.rcx begun s1 n' run mem in
        let s' : Kernel api = record s1 { ctx = record s1.ctx { rax = 0 } } in
        (
          s',
          trap_run api config args console s s1 t run,
          record {
            nested =
                Runs-Nested api s1 s' (newp_of s) (p ∷ ps)
                  (record {
                    procpool = refl;
                    procs = refl;
                    curp = refl;
                    globals = refl;
                    execbufp = refl;
                  })
                  n1;
            fresh = fresh;
            ctx = refl;
            argv = ground arith;
            code = ground arith;
            saved =
                ap (λ q. (s1.procs q).savectx) (sym n.curp)
                ∙ (sys_run-Started api config s.ctx.rbx s.ctx.rcx begun s1 run).saved
                    (λ e. fresh (mem-cons.1 (Or.inl (sym e ∙ n.curp))));
            holds = holds;
            same = same;
          },
        )
