-- ===== src/Kernel/Process/Fail.antt =====
-- `sys_run` that fails.
use os.Prelude.{
  zero, suc, ℕ, ◌≡◌, ◌≢◌, refl, inl, inr, arith, some, none, ◌==◌, Bool-cases, Option, List, [],
  ◌∙◌,
}
use os.Prelude.Int.{negsuc}
use os.Machine.{ok, Run, fault, out_of_fuel, halted, ◌>>=◌}
use os.Machine.Memory.{Ptr, null, Memory}
use os.Machine.Memory.Words.{load64}
use os.Kernel.Alloc
use os.Kernel.Alloc.{allocinit}
use os.Kernel.Elf.{Loaded, load_segment, load}
use os.Kernel.Pool.Api.{PoolApi}
use os.Kernel.Process.{Kernel, in_space, set_proc, sys_run, run_loaded}
use os.Kernel.Process.Exit.{alloc-Live, alloc-null}
use os.Kernel.Space
use os.Kernel.Space.{Space, Config}

-- Where the loader fails it has allocated nothing.
load_segment-none_mark :
    (rawelf entry loadhdr : Ptr) (s s' : Space)
    → load_segment rawelf entry loadhdr s ≡ ok none s'
    → (s'.execbufp ≡ s.execbufp) × (s'.globals ≡ s.globals)
unfolding load_segment
load_segment-none_mark rawelf entry loadhdr s s' e = ground arith

load-none :
    (config : Config) (name : Ptr) (s s' : Space)
    → load config name s ≡ ok none s'
    → (s'.execbufp ≡ s.execbufp) × (s'.globals ≡ s.globals)
unfolding load
load-none config name s s' e = ground arith

-- The mark, once it is set.
allocinit-allocinit :
    (s : Space)
    → allocinit s.globals (allocinit s.globals s.execbufp) ≡ allocinit s.globals s.execbufp
unfolding allocinit
allocinit-allocinit s = ground arith

module _ (api : PoolApi) (config : Config) (newp name argv code : Ptr) (s s' : Kernel api) where
  -- From the load on: what fails leaves the mark of the new process, and gives its block back.
  load_fails :
      (r : Run Space (Option Loaded))
      → load config name s.space ≡ r
      → s.space.execbufp ≡ (s.procs newp).freemark
      → (in_space api (load config name) >>= run_loaded api newp argv code) s ≡ ok (negsuc 0) s'
      → (s'.curp ≡ s.curp)
        × (s'.ctx ≡ s.ctx)
        × (s'.space.execbufp ≡ s.space.execbufp)
        × (s'.procpool ≡ api.free s.procpool newp)
        × ((p : Ptr) → p ≢ newp → s'.procs p ≡ s.procs p)
  unfolding run_loaded Space.freeup Alloc.freeup
  load_fails (ok none sp) e at h = ground (arith, load-none config name s.space sp e)
  load_fails (ok (some l) sp) e at h = ground arith
  load_fails fault e at h = ground arith
  load_fails out_of_fuel e at h = ground arith
  load_fails (halted sp) e at h = ground arith

module _ (api : PoolApi) (config : Config) (argv code : Ptr) (s : Kernel api) where
  abbrev newp : Ptr
  newp = (api.alloc s.procpool).1

  abbrev mark : Ptr
  mark = allocinit s.space.globals s.space.execbufp

  -- The state at the load, where the read of `argv[0]` leaves the memory `m`.
  abbrev at_load : Memory → Kernel api
  at_load m =
      set_proc api newp (record (s.procs newp) { freemark = mark })
        (record s {
          space = record s.space { memory = m; execbufp = mark };
          procpool = (api.alloc s.procpool).0;
        })

  -- The failed call has left no trace but in memory and in the structure that it took and gave
  -- back.
  pub record Undone (live : List Ptr) (s' : Kernel api) : Type 0 where
    pub curp : s'.curp ≡ s.curp
    pub ctx : s'.ctx ≡ s.ctx
    pub mark_kept : allocinit s.space.globals s'.space.execbufp ≡ mark
    pub pool : api.Live s'.procpool live
    pub others : (p : Ptr) → p ≢ newp → s'.procs p ≡ s.procs p

  module _ (live : List Ptr) (s' : Kernel api) (accounted : api.Live s.procpool live) where
    early :
        (sp : Space)
        → allocinit s.space.globals sp.execbufp ≡ mark
        → (st : api.State) → api.Live st live
        → s' ≡ record s { space = sp; procpool = st }
        → Undone live s'
    early sp e st v h = record {
      curp = ground arith;
      ctx = ground arith;
      mark_kept = rw h e;
      pool = rw h v;
      others = λ p ne. rw h;
    }

    late :
        (name : Ptr) (m : Memory)
        → newp ≢ null
        → (in_space api (load config name) >>= run_loaded api newp argv code) (at_load m)
          ≡ ok (negsuc 0) s'
        → Undone live s'
    late name m ne h = record {
      curp = facts.0;
      ctx = facts.1;
      mark_kept = rw facts.2 (allocinit-allocinit s.space);
      pool = rw facts.3 (
          api.free-ok (api.alloc s.procpool).0 newp [] live
            (alloc-Live api s.procpool live accounted ne).1);
      others = λ p o. facts.4 p o ∙ ground arith;
    }
      where
        facts :
            (s'.curp ≡ s.curp)
            × (s'.ctx ≡ s.ctx)
            × (s'.space.execbufp ≡ mark)
            × (s'.procpool ≡ api.free (api.alloc s.procpool).0 newp)
            × ((p : Ptr) → p ≢ newp → s'.procs p ≡ (at_load m).procs p)
        facts = load_fails api config newp name argv code (at_load m) s' _ refl (ground arith) h

    by_argv :
        (r : Run Memory ℕ)
        → load64 argv s.space.memory ≡ r
        → sys_run api config argv code s ≡ ok (negsuc 0) s'
        → Undone live s'
    unfolding sys_run Space.freemark Alloc.freemark
    by_argv (ok zero m) e h =
        early (record s.space { memory = m }) refl s.procpool accounted (ground arith)
    by_argv (ok (suc a) m) e h = elim (Bool-cases (newp == null)) [
      | inl y ↦
          let full = alloc-null api s.procpool live accounted (ground arith) in
          early (record s.space { memory = m }) refl s.procpool accounted (ground arith)
      | inr n ↦ late (suc a) m (ground arith) (ground arith)
    ]
    by_argv fault e h = ground arith
    by_argv out_of_fuel e h = ground arith
    by_argv (halted m) e h = ground arith

-- A `sys_run` that returns -1 leaves the current process, its registers and the mark of the
-- allocator (as set by its first use) as they were; the pool holds the same blocks as before, and
-- no structure has changed but that of the block that it took and gave back.
pub sys_run_fails :
    (api : PoolApi) (config : Config) (argv code : Ptr) (s s' : Kernel api) (live : List Ptr)
    → api.Live s.procpool live
    → sys_run api config argv code s ≡ ok (negsuc 0) s'
    → Undone api config argv code s live s'
sys_run_fails api config argv code s s' live v h =
    by_argv api config argv code s live s' v (load64 argv s.space.memory) refl h
