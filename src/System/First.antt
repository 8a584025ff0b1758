-- ===== src/System/First.antt =====
-- The state in which `run_first` enters the first process.
use os.Prelude.{ℕ, ◌+◌, ◌≡◌, ◌≢◌, inl, inr, some, none, Option, [], arith, refl}
use os.Machine.{Run, ok, fault, out_of_fuel, halted, ◌>>=◌}
use os.Machine.Memory.{Ptr, null, Memory}
use os.Machine.Memory.Words.{load64}
use os.Kernel.Alloc.{allocinit}
use os.Kernel.Alloc.Arena.{IsArena, alloc_lem}
use os.Kernel.Elf.{Loaded, load}
use os.Kernel.Pool.Api.{PoolApi}
use os.Kernel.Process.{Kernel, in_space, set_proc, first_loaded, run_first, stack_size}
use os.Kernel.Process.Exit.{alloc-Live}
use os.Kernel.Space
use os.Kernel.Space.{Space, Config}
use os.System.{HasMemory, Nested}
use os.System.Memory.{load-Took}
use os.System.Run.{allocinit_set, Placed}

module _ (api : PoolApi) (newp : Ptr) (s s' : Kernel api) where
  -- The first process is current, alone, with the mark NULL.
  pub record Entered : Type 0 where
    pub curp : s'.curp ≡ newp
    pub procpool : s'.procpool ≡ s.procpool
    pub prev : (s'.procs newp).prev ≡ null
    pub freemark : (s'.procs newp).freemark ≡ (s.procs newp).freemark
    pub stacksz : (s'.procs newp).stacksz ≡ stack_size
    pub placed : Placed s.space s'.space (s'.procs newp)

module _ (api : PoolApi) (config : Config) (newp name argv entry : Ptr) (s s' : Kernel api) where
  first_loaded-Entered :
      (r : Run Space (Option Loaded))
      → load config name s.space ≡ r
      → IsArena s.space.globals s.space.execbufp
      → (in_space api (load config name) >>= first_loaded api newp argv) s ≡ ok (some entry) s'
      → HasMemory (s'.procs s'.curp)
      → Entered api newp s s'
  unfolding first_loaded Space.alloc
  first_loaded-Entered (ok (some l) sp) e v h mem =
      let cur : s'.curp ≡ newp = ground arith in
      let same : (s'.procs newp).load ≡ l.load = ground arith in
      let size : (s'.procs newp).loadsz ≡ l.loadsz = ground arith in
      let t =
        load-Took config name s.space sp l v (rw (cur, same) at mem.0) (rw (cur, size) at mem.1)
          e in
      elim (alloc_lem t.arena stack_size) [
        | inl (full, r) ↦ ground arith
        | inr (fits, r, v') ↦
            let set : allocinit sp.globals sp.execbufp ≡ sp.execbufp =
              allocinit_set sp.globals sp.execbufp (ground (arith, t.moved)) in
            record {
              curp = cur;
              procpool = ground arith;
              prev = ground arith;
              freemark = ground arith;
              stacksz = ground arith;
              placed = record {
                globals = ground (arith, t.globals);
                load = ground (arith, t.start);
                stack = ground (arith, t.moved);
                moved = ground arith;
                arena =
                    (let g : s'.space.globals ≡ sp.globals = ground arith in
                      let m : s'.space.execbufp ≡ allocinit sp.globals sp.execbufp + stack_size =
                        ground arith in
                      rw (g, m) v');
              };
            }
      ]
  first_loaded-Entered (ok none sp) e v h mem = ground arith
  first_loaded-Entered fault e v h mem = ground arith
  first_loaded-Entered out_of_fuel e v h mem = ground arith
  first_loaded-Entered (halted sp) e v h mem = ground arith

module _ (api : PoolApi) (config : Config) (argv entry : Ptr) (s s' : Kernel api) where
  abbrev newp : Ptr
  newp = (api.alloc s.procpool).1

  abbrev at_load : Memory → Kernel api
  at_load m = record (set_proc api newp (record (s.procs newp) { freemark = null }) s) {
    space = record s.space { memory = m };
    procpool = (api.alloc s.procpool).0;
  }

  -- What `run_first` has done, with the memory that the read of `argv[0]` leaves.
  by_argv :
      (r : Run Memory ℕ)
      → load64 argv s.space.memory ≡ r
      → IsArena s.space.globals s.space.execbufp
      → run_first api config argv s ≡ ok (some entry) s'
      → HasMemory (s'.procs s'.curp)
      → (newp ≢ null) × ((m : Memory) × Entered api newp (at_load m) s')
  unfolding run_first
  by_argv (ok a m) e v h mem = (
    ground arith,
    (
      m,
      first_loaded-Entered api config newp a argv entry (at_load m) s' _ refl v (ground arith) mem,
    ),
  )
  by_argv fault e v h mem = ground arith
  by_argv out_of_fuel e v h mem = ground arith
  by_argv (halted m) e v h mem = ground arith

  -- Where no block of the pool is handed out, the first process is a chain by itself.
  pub run_first-Nested :
      api.Live s.procpool []
      → IsArena s.space.globals s.space.execbufp
      → run_first api config argv s ≡ ok (some entry) s'
      → HasMemory (s'.procs s'.curp)
      → Nested api s' newp []
  run_first-Nested empty v h mem =
      let (ne, (m, e)) = by_argv (load64 argv s.space.memory) refl v h mem in
      let full = alloc-Live api s.procpool [] empty ne in
      let set : allocinit s'.space.globals s'.space.execbufp ≡ s'.space.execbufp =
        allocinit_set s'.space.globals s'.space.execbufp
          (omega (arith, e.placed.moved, e.stacksz)) in
      record {
        curp = e.curp;
        not_null = ne;
        links = e.prev;
        live = rw e.procpool full.1;
        arena = e.placed.arena;
        regions = (
          omega (arith, freemark_null m e.freemark),
          omega (arith, e.placed.stack),
          omega (arith, set, e.placed.moved),
        );
      }
    where
      freemark_null :
          (m : Memory)
          → (s'.procs newp).freemark ≡ ((at_load m).procs newp).freemark
          → (s'.procs newp).freemark ≡ 0
      freemark_null m f = ground arith
