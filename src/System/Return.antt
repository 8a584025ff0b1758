-- ===== src/System/Return.antt =====
-- A process that waits goes on when the one that it has started exits.
use os.Prelude.{ℕ, ◌≡◌, List, ◌∷◌, refl, true}
use os.Prelude.Int.{pos}
use os.Machine.{ok}
use os.Machine.Memory.{Ptr, Memory}
use os.Hal.Trap.{syscall_hnd}
use os.Hal.Trap.Exit.{Traps, behind, trap_exit}
use os.Kernel.Elf.{to_int}
use os.Kernel.Pool.Api.{PoolApi}
use os.Kernel.Process.{Kernel}
use os.Kernel.Process.Exit.{CodeStored, sys_exit-leave}
use os.Kernel.Space.{Config}
use os.Kernel.Syscall.{Syscall, Console}
use os.System.{Nested}
use os.System.End.{sys_exit-below}
use os.System.Traps.{Runs-Nested}

module _ (api : PoolApi) (config : Config) (args : ℕ) (console : Console) where
  -- A trap for `exit` of a process that another has started, where the place for its exit code is
  -- NULL or can be written, is handled: the process below it is current, with its registers as they
  -- were saved but for the result, 0.
  pub exit_returns :
      (s : Kernel api) (p q : Ptr) (rest : List Ptr) (m : Memory)
      → Nested api s p (q ∷ rest)
      → Traps api config args console s Syscall.exit
      → CodeStored (s.procs p).code (to_int s.ctx.rbx) s.space.memory m
      → (s' : Kernel api) × (syscall_hnd api config args console s ≡ ok true s')
        × Nested api s' q rest
        × (s'.ctx ≡ record (s.procs q).savectx { rax = 0 })
        × (s'.space.memory ≡ m)
  exit_returns s p q rest m n t stored =
      let begun : Kernel api = record s { ctx = behind s.ctx } in
      let n' : Nested api begun p (q ∷ rest) =
        Runs-Nested api s begun p (q ∷ rest)
          (record { procpool = refl; procs = refl; curp = refl; globals = refl; execbufp = refl })
          n in
      let left =
        sys_exit-leave api (to_int s.ctx.rbx) begun m (rw n.curp n.not_null)
          (rw (n.curp, n.links.0) n.links.1) (rw n.curp stored) in
      let n2 = sys_exit-below api (to_int s.ctx.rbx) (pos 0) begun _ left p q rest n' in
      (
        _,
        trap_exit api config args console s _ t left,
        Runs-Nested api _ _ q rest
            (record { procpool = refl; procs = refl; curp = refl; globals = refl; execbufp = refl })
            n2,
        rw (n.curp, n.links.0),
        refl,
      )
