-- ===== src/System/Start.antt =====
-- `sys_run` puts a process on top of the chain, or leaves the chain as it is.
use mathlib.Core.List.{Mem}
use os.Prelude.{◌+◌, ◌≡◌, ◌≢◌, ◌≤◌, List, ◌∷◌, arith, ◌∙◌, inl, inr, Bool-cases, ◌==◌}
use os.Prelude.Int.{pos, negsuc}
use os.Machine.{ok}
use os.Machine.Memory.{Ptr, null}
use os.Kernel.Alloc.{allocinit}
use os.Kernel.Alloc.Arena.{IsArena, allocinit-bounds}
use os.Kernel.Pool.Api.{PoolApi}
use os.Kernel.Process.{Kernel, sys_run}
use os.Kernel.Process.Exit.{alloc-Live}
use os.Kernel.Process.Fail.{Undone, sys_run_fails}
use os.Kernel.Process.Run.{Started, sys_run-Started}
use os.Kernel.Space.{Config}
use os.System.{Nested, HasMemory}
use os.System.Chain.{
  SamePlace, SamePlace_of_eq, Links-frame, Regions-frame, Links-ne_null, Regions-at,
}
use os.System.Run.{Placed, sys_run-Placed, stacksz-sys_run, sys_run-Result, allocinit_set}

module _ (api : PoolApi) (config : Config) (argv code : Ptr) (s s' : Kernel api) {p : Ptr}
    {ps : List Ptr} (nested : Nested api s p ps) where
  abbrev newp : Ptr
  newp = (api.alloc s.procpool).1

  abbrev mark : Ptr
  mark = allocinit s.space.globals s.space.execbufp

  module _ (h : sys_run api config argv code s ≡ ok (pos 0) s')
      (mem : HasMemory (s'.procs s'.curp)) where
    start : Started api s s' code
    start = sys_run-Started api config argv code s s' h

    given : (¬ Mem newp (p ∷ ps)) × api.Live (api.alloc s.procpool).0 (newp ∷ p ∷ ps)
    given = alloc-Live api s.procpool (p ∷ ps) nested.live (rw (← start.current) start.child)

    placed : Placed s.space s'.space (s'.procs newp)
    placed = sys_run-Placed api config argv code s s' nested.arena h (rw (← start.current) mem)

    kept : (q : Ptr) → Mem q (p ∷ ps) → SamePlace (s.procs q) (s'.procs q)
    kept q i =
        let ne : q ≢ s'.curp = λ e. given.0 (rw (← start.current, ← e) i) in
        elim (Bool-cases (q == s.curp)) [
          | inl y ↦
              let e : q ≡ s.curp = ground arith in
              let v : s'.procs q ≡ record (s.procs q) { savectx = s.ctx } =
                rw e (start.kept (rw e at ne)) in
              record {
                prev = rw v;
                freemark = rw v;
                load = rw v;
                loadsz = rw v;
                stack = rw v;
                stacksz = rw v;
              }
          | inr n ↦ SamePlace_of_eq (start.others q ne (ground arith))
        ]

    marked : (s'.procs newp).freemark ≡ mark
    marked = rw start.current at (start.mark)

    behind :
        allocinit s'.space.globals s'.space.execbufp
        ≡ (s'.procs newp).stack + (s'.procs newp).stacksz
    behind =
        allocinit_set s'.space.globals s'.space.execbufp
          (omega (arith, placed.moved, stacksz-sys_run api config argv code s s' h))
        ∙ placed.moved

    -- The new process is on top, in the block that the pool has handed out.
    pub sys_run-Nested : (¬ Mem newp (p ∷ ps)) × Nested api s' newp (p ∷ ps)
    sys_run-Nested = (
      given.0,
      record {
        curp = start.current;
        not_null = rw (← start.current) start.child;
        links = (
          rw (← start.current, start.prev) nested.curp,
          nested.not_null,
          Links-frame p ps kept nested.links,
        );
        live = rw start.pool given.1;
        arena = placed.arena;
        regions = (
          (omega (arith, marked, placed.load), omega (arith, placed.stack), omega (arith, behind)),
          rw (placed.globals, marked) (allocinit-bounds nested.arena).1,
          Regions-at s'.procs p ps placed.globals marked
              (Regions-frame s.space.globals mark p ps kept nested.regions),
        );
      },
    )

  module _ (h : sys_run api config argv code s ≡ ok (negsuc 0) s') where
    undone : Undone api config argv code s (p ∷ ps) s'
    undone = sys_run_fails api config argv code s s' (p ∷ ps) nested.live h

    globals : s'.space.globals ≡ s.space.globals
    globals = (sys_run-Result api config argv code s s' (negsuc 0) h).0

    untouched : (q : Ptr) → Mem q (p ∷ ps) → SamePlace (s.procs q) (s'.procs q)
    untouched q i = SamePlace_of_eq (
        undone.others q (λ e. elim (Bool-cases (newp == null)) [
          | inl y ↦ Links-ne_null s.procs p ps q nested.not_null nested.links i (e ∙ ground arith)
          | inr n ↦ (alloc-Live api s.procpool (p ∷ ps) nested.live (ground arith)).0 (rw (← e) i)
        ]))

    arena : IsArena s'.space.globals s'.space.execbufp
    arena =
        let inside = allocinit-bounds nested.arena in
        let kept_mark = undone.mark_kept in
        rw globals (record {
          not_null = nested.arena.not_null;
          above = λ ne. ground (arith, allocinit_set s.space.globals s'.space.execbufp ne);
          below = below_end;
        })
      where
        below_end : s'.space.execbufp ≤ s.space.globals.mem + s.space.globals.memsz
        below_end = elim (Bool-cases (s'.space.execbufp == null)) [
          | inl y ↦ ground arith
          | inr n ↦ ground (
            arith,
            undone.mark_kept,
            allocinit-bounds nested.arena,
            allocinit_set s.space.globals s'.space.execbufp (ground arith),
          )
        ]

    -- The chain is as before.
    pub sys_run_fails-Nested : Nested api s' p ps
    sys_run_fails-Nested = record {
      curp = undone.curp ∙ nested.curp;
      not_null = nested.not_null;
      links = Links-frame p ps untouched nested.links;
      live = undone.pool;
      arena = arena;
      regions =
          rw (globals, undone.mark_kept)
            (Regions-frame s.space.globals mark p ps untouched nested.regions);
    }
