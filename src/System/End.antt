-- ===== src/System/End.antt =====
-- `sys_exit` takes the current process off the chain.
use os.Prelude.{◌≡◌, ◌≢◌, List, [], ◌∷◌, arith, refl, ◌∙◌}
use os.Prelude.Int.{ℤ, pos}
use os.Machine.{ok}
use os.Machine.Memory.{Ptr, null}
use os.Kernel.Alloc
use os.Kernel.Alloc.{allocinit}
use os.Kernel.Alloc.Arena.{allocinit-bounds}
use os.Kernel.Pool.Api.{PoolApi}
use os.Kernel.Process.{Kernel, sys_exit}
use os.Kernel.Space
use os.System.{Nested}
use os.System.Chain.{Regions-at}
use os.System.Run.{allocinit_set}

module _ (api : PoolApi) (c r : ℤ) (s s' : Kernel api) where
  -- What an exit leaves, whoever exits.
  pub record Left : Type 0 where
    pub parent : (s.procs s.curp).prev ≢ null
    pub curp : s'.curp ≡ (s.procs s.curp).prev
    pub procpool : s'.procpool ≡ api.free s.procpool s.curp
    pub procs : s'.procs ≡ s.procs
    pub globals : s'.space.globals ≡ s.space.globals
    pub mark : s'.space.execbufp ≡ (s.procs s.curp).freemark
    pub result : r ≡ pos 0

  sys_exit-Left : sys_exit api c s ≡ ok r s' → Left
  unfolding sys_exit Space.freeup Alloc.freeup
  sys_exit-Left h = record {
    parent = ground arith;
    curp = ground arith;
    procpool = ground arith;
    procs = ground arith;
    globals = ground arith;
    mark = ground arith;
    result = ground arith;
  }

  module _ (h : sys_exit api c s ≡ ok r s') where
    left : Left
    left = sys_exit-Left h

    -- Behind the exit of a process that another has started, the chain is what was below it.
    pub sys_exit-below :
        (p q : Ptr) (rest : List Ptr) → Nested api s p (q ∷ rest) → Nested api s' q rest
    sys_exit-below p q rest nested =
        let (below, starts, regions) = nested.regions in
        let (prev, ne, links) = nested.links in
        let mark : s'.space.execbufp ≡ (s.procs p).freemark = left.mark ∙ rw nested.curp in
        let set : allocinit s.space.globals (s.procs p).freemark ≡ (s.procs p).freemark =
          allocinit_set s.space.globals _ (omega (arith, nested.arena.not_null)) in
        record {
          curp = left.curp ∙ rw nested.curp prev;
          not_null = ne;
          links = rw left.procs links;
          live =
              rw (left.procpool, nested.curp) (api.free-ok s.procpool p [] (q ∷ rest) nested.live);
          arena =
              rw (left.globals, mark)
                (record {
                  not_null = nested.arena.not_null;
                  above = λ _. starts;
                  below = omega (arith, allocinit-bounds nested.arena);
                });
          regions =
              rw left.procs
                (Regions-at s.procs q rest left.globals (rw (left.globals, mark) set) regions);
        }

    -- The first process does not return from `sys_exit`.
    pub sys_exit-Nested :
        {p : Ptr} (ps : List Ptr)
        → Nested api s p ps
        → (q : Ptr) × (rest : List Ptr) × (ps ≡ q ∷ rest) × Nested api s' q rest
    sys_exit-Nested {p} [] nested = absurd (left.parent (rw nested.curp nested.links))
    sys_exit-Nested {p} (q ∷ rest) nested = (q, rest, refl, sys_exit-below p q rest nested)
