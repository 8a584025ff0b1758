-- ===== src/System/Run.antt =====
-- What `sys_run` takes of the arena for the process that it starts.
use os.Prelude.{
  ℕ, zero, suc, ◌==◌, Bool-cases, ◌⊎◌, ◌+◌, ◌≡◌, ◌≢◌, inl, inr, some, none, Option, arith, refl,
  ◌∙◌,
}
use os.Prelude.Int.{ℤ, pos, negsuc, pos_part}
use os.Machine.{Run, ok, fault, out_of_fuel, halted, ◌>>=◌}
use os.Machine.Memory.{Ptr, null, Memory}
use os.Machine.Memory.Words.{load64}
use os.Kernel.Alloc
use os.Kernel.Alloc.{allocinit}
use os.Kernel.Alloc.Arena.{IsArena, alloc_lem, allocinit-bounds}
use os.Kernel.Elf.{Loaded, load}
use os.Kernel.Init.{Globals}
use os.Kernel.Pool.Api.{PoolApi}
use os.Kernel.Process.{Kernel, Proc, in_space, set_proc, run_loaded, sys_run, stack_size}
use os.Kernel.Space
use os.Kernel.Space.{Space, Config}
use os.System.{HasMemory}
use os.System.Memory.{load-Took, load-globals}

-- The process `v` has its program at the mark of `s`, its stack behind that, and the mark of `s'`
-- is behind the stack.
pub record Placed (s s' : Space) (v : Proc) : Type 0 where
  pub globals : s'.globals ≡ s.globals
  pub load : v.load ≡ allocinit s.globals s.execbufp
  pub stack : v.stack ≡ v.load + pos_part v.loadsz
  pub moved : s'.execbufp ≡ v.stack + v.stacksz
  pub arena : IsArena s'.globals s'.execbufp

pub allocinit_set :
    (g : Globals) (execbufp : Ptr) → execbufp ≢ null → allocinit g execbufp ≡ execbufp
unfolding allocinit
allocinit_set g execbufp ne = ground arith

module _ (api : PoolApi) (config : Config) (newp name argv code : Ptr) (s s' : Kernel api) where
  run_loaded-Placed :
      (r : Run Space (Option Loaded))
      → load config name s.space ≡ r
      → newp ≢ null
      → IsArena s.space.globals s.space.execbufp
      → (in_space api (load config name) >>= run_loaded api newp argv code) s ≡ ok (pos 0) s'
      → HasMemory (s'.procs newp)
      → Placed s.space s'.space (s'.procs newp)
  unfolding run_loaded Space.alloc
  run_loaded-Placed (ok (some l) sp) e ne v h mem =
      let same : (s'.procs newp).load ≡ l.load = ground arith in
      let size : (s'.procs newp).loadsz ≡ l.loadsz = ground arith in
      let t = load-Took config name s.space sp l v (rw same at mem.0) (rw size at mem.1) e in
      elim (alloc_lem t.arena stack_size) [
        | inl (full, r) ↦ ground arith
        | inr (fits, r, v') ↦
            let set : allocinit sp.globals sp.execbufp ≡ sp.execbufp =
              allocinit_set sp.globals sp.execbufp (ground (arith, t.moved)) in
            record {
              globals = ground (arith, t.globals);
              load = ground (arith, t.start);
              stack = ground (arith, t.moved);
              moved = ground arith;
              arena =
                  (let g : s'.space.globals ≡ sp.globals = ground arith in
                    let m : s'.space.execbufp ≡ allocinit sp.globals sp.execbufp + stack_size =
                      ground arith in
                    rw (g, m) v');
            }
      ]
  run_loaded-Placed (ok none sp) e ne v h mem = ground arith
  run_loaded-Placed fault e ne v h mem = ground arith
  run_loaded-Placed out_of_fuel e ne v h mem = ground arith
  run_loaded-Placed (halted sp) e ne v h mem = ground arith

module _ (api : PoolApi) (config : Config) (argv code : Ptr) (s s' : Kernel api) where
  abbrev newp : Ptr
  newp = (api.alloc s.procpool).1

  abbrev mark : Ptr
  mark = allocinit s.space.globals s.space.execbufp

  abbrev at_load : Memory → Kernel api
  at_load m =
      set_proc api newp (record (s.procs newp) { freemark = mark })
        (record s {
          space = record s.space { memory = m; execbufp = mark };
          procpool = (api.alloc s.procpool).0;
        })

  by_argv :
      (r : Run Memory ℕ)
      → load64 argv s.space.memory ≡ r
      → IsArena s.space.globals s.space.execbufp
      → sys_run api config argv code s ≡ ok (pos 0) s'
      → HasMemory (s'.procs newp)
      → Placed s.space s'.space (s'.procs newp)
  unfolding sys_run Space.freemark Alloc.freemark
  by_argv (ok a m) e v h mem =
      let inside = allocinit-bounds v in
      let set : allocinit s.space.globals mark ≡ mark =
        allocinit_set s.space.globals mark inside.0 in
      let v' : IsArena s.space.globals mark = record {
        not_null = v.not_null;
        above = λ _. inside.1;
        below = inside.2;
      } in
      let placed =
        run_loaded-Placed api config newp a argv code (at_load m) s' _ refl (ground arith) v'
          (ground arith) mem in
      record {
        globals = placed.globals;
        load = placed.load ∙ set;
        stack = placed.stack;
        moved = placed.moved;
        arena = placed.arena;
      }
  by_argv fault e v h mem = ground arith
  by_argv out_of_fuel e v h mem = ground arith
  by_argv (halted m) e v h mem = ground arith

  -- A process that is started has its place from the mark on.
  pub sys_run-Placed :
      IsArena s.space.globals s.space.execbufp
      → sys_run api config argv code s ≡ ok (pos 0) s'
      → HasMemory (s'.procs (api.alloc s.procpool).1)
      → Placed s.space s'.space (s'.procs (api.alloc s.procpool).1)
  sys_run-Placed v h mem = by_argv (load64 argv s.space.memory) refl v h mem

  pub stacksz-sys_run :
      sys_run api config argv code s ≡ ok (pos 0) s'
      → (s'.procs (api.alloc s.procpool).1).stacksz ≡ stack_size
  unfolding sys_run
  stacksz-sys_run h = ground arith

module _ (api : PoolApi) (config : Config) (newp name argv code : Ptr) (s s' : Kernel api)
    (c : ℤ) where
  run_loaded-Result :
      (r : Run Space (Option Loaded))
      → load config name s.space ≡ r
      → (in_space api (load config name) >>= run_loaded api newp argv code) s ≡ ok c s'
      → (s'.space.globals ≡ s.space.globals) × ((c ≡ pos 0) ⊎ (c ≡ negsuc 0))
  unfolding run_loaded Space.alloc Space.freeup
  run_loaded-Result (ok none sp) e h =
      (ground (arith, load-globals config name s.space sp none e), inr (ground arith))
  run_loaded-Result (ok (some l) sp) e h =
      (ground (arith, load-globals config name s.space sp (some l) e), ground arith)
  run_loaded-Result fault e h = ground arith
  run_loaded-Result out_of_fuel e h = ground arith
  run_loaded-Result (halted sp) e h = ground arith

module _ (api : PoolApi) (config : Config) (argv code : Ptr) (s s' : Kernel api) (c : ℤ) where
  result_by_argv :
      (r : Run Memory ℕ)
      → load64 argv s.space.memory ≡ r
      → sys_run api config argv code s ≡ ok c s'
      → (s'.space.globals ≡ s.space.globals) × ((c ≡ pos 0) ⊎ (c ≡ negsuc 0))
  unfolding sys_run Space.freemark Alloc.freemark
  result_by_argv (ok zero m) e h = (ground arith, inr (ground arith))
  result_by_argv (ok (suc a) m) e h = elim (Bool-cases (newp api config argv code s s' == null)) [
    | inl y ↦ (ground arith, inr (ground arith))
    | inr n ↦
        run_loaded-Result api config (newp api config argv code s s') (suc a) argv code
          (at_load api config argv code s s' m) s' c _ refl (ground arith)
  ]
  result_by_argv fault e h = ground arith
  result_by_argv out_of_fuel e h = ground arith
  result_by_argv (halted m) e h = ground arith

  -- `sys_run` leaves the globals alone, and its result is 0 or -1.
  pub sys_run-Result :
      sys_run api config argv code s ≡ ok c s'
      → (s'.space.globals ≡ s.space.globals) × ((c ≡ pos 0) ⊎ (c ≡ negsuc 0))
  sys_run-Result h = result_by_argv (load64 argv s.space.memory) refl h
