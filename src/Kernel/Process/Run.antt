-- ===== src/Kernel/Process/Run.antt =====
-- `sys_run` and `sys_exit`.
use os.Prelude.{◌≡◌, ◌≢◌, arith, some, none, Option}
use os.Prelude.Int.{pos}
use os.Machine.{ok}
use os.Machine.Memory.{Ptr, null}
use os.Kernel.Alloc
use os.Kernel.Alloc.{allocinit}
use os.Kernel.Elf.{Loaded}
use os.Kernel.Pool.Api.{PoolApi}
use os.Kernel.Process.{Kernel, run_loaded, sys_run}
use os.Kernel.Space
use os.Kernel.Space.{Space, Config}

module _ (api : PoolApi) where
  -- What a successful `sys_run` has done: it has made the process `newp` current, above the caller.
  pub record Started (s s' : Kernel api) (code : Ptr) : Type 0 where
    pub caller : s.curp ≢ null
    pub current : s'.curp ≡ (api.alloc s.procpool).1
    pub child : s'.curp ≢ null
    pub pool : s'.procpool ≡ (api.alloc s.procpool).0
    pub prev : (s'.procs s'.curp).prev ≡ s.curp
    pub code_at : (s'.procs s'.curp).code ≡ code
    pub mark : (s'.procs s'.curp).freemark ≡ allocinit s.space.globals s.space.execbufp
    pub saved : (s.curp ≢ s'.curp) → (s'.procs s.curp).savectx ≡ s.ctx
    pub kept : (s.curp ≢ s'.curp) → s'.procs s.curp ≡ record (s.procs s.curp) { savectx = s.ctx }
    pub others : (p : Ptr) → p ≢ s'.curp → p ≢ s.curp → s'.procs p ≡ s.procs p

  run_loaded-Started :
      (newp argv code : Ptr) (loaded : Option Loaded) (s s' : Kernel api)
      → newp ≢ null
      → run_loaded api newp argv code loaded s ≡ ok (pos 0) s'
      → (s.curp ≢ null)
        × (s'.curp ≡ newp)
        × (s'.procpool ≡ s.procpool)
        × ((s'.procs newp).prev ≡ s.curp)
        × ((s'.procs newp).code ≡ code)
        × ((s'.procs newp).freemark ≡ (s.procs newp).freemark)
        × ((s.curp ≢ newp) → (s'.procs s.curp).savectx ≡ s.ctx)
        × ((s.curp ≢ newp) → s'.procs s.curp ≡ record (s.procs s.curp) { savectx = s.ctx })
        × ((p : Ptr) → p ≢ newp → p ≢ s.curp → s'.procs p ≡ s.procs p)
  unfolding run_loaded
  run_loaded-Started newp argv code none s s' ne e = ground arith
  run_loaded-Started newp argv code (some loaded) s s' ne e = ground arith

  module _ (config : Config) (argv code : Ptr) (s s' : Kernel api) where
    pub sys_run-Started : sys_run api config argv code s ≡ ok (pos 0) s' → Started s s' code
    unfolding sys_run Space.freemark Alloc.freemark
    sys_run-Started e = record {
      caller = ground arith;
      current = ground arith;
      child = ground arith;
      pool = ground arith;
      prev = ground arith;
      code_at = ground arith;
      mark = ground arith;
      saved = ground arith;
      kept = ground arith;
      others = λ p n o. ground arith;
    }
