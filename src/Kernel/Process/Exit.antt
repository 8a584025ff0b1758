-- ===== src/Kernel/Process/Exit.antt =====
-- `sys_exit` undoes `sys_run`.
use mathlib.Core.List.{Mem}
use os.Prelude.{◌≡◌, ◌≢◌, refl, ◌⊎◌, inl, inr, arith, Bool-cases, List, [], ◌∷◌, length, ltb, ◌∙◌}
use os.Prelude.Int.{ℤ, pos}
use os.Machine.{ok}
use os.Machine.Memory.{Ptr, null, Memory}
use os.Machine.Memory.Words.{store32}
use os.Kernel.Alloc
use os.Kernel.Alloc.{allocinit}
use os.Kernel.Pool.Api.{PoolApi}
use os.Kernel.Process.{Kernel, sys_run, sys_exit, int_word}
use os.Kernel.Process.Run.{Started, sys_run-Started}
use os.Kernel.Space
use os.Kernel.Space.{Space, Config}

-- The memory after the exit code is stored, if there is a place for it.
abbrev pub CodeStored : (p : Ptr) → ℤ → Memory → Memory → Type 0
CodeStored p c m m' = ((p ≡ null) × (m' ≡ m)) ⊎ ((p ≢ null) × (store32 p (int_word c) m ≡ ok tt m'))

module _ (api : PoolApi) where
  pub sys_exit-leave :
      (c : ℤ) (s : Kernel api) (m : Memory)
      → s.curp ≢ null
      → (s.procs s.curp).prev ≢ null
      → CodeStored (s.procs s.curp).code c s.space.memory m
      → sys_exit api c s
        ≡ ok (pos 0) (record s {
          space = record s.space { memory = m; execbufp = (s.procs s.curp).freemark };
          procpool = api.free s.procpool s.curp;
          ctx = (s.procs (s.procs s.curp).prev).savectx;
          curp = (s.procs s.curp).prev;
        })
  unfolding sys_exit Space.freeup Alloc.freeup
  sys_exit-leave c s m ne ne' (inl (z, e)) = ground arith
  sys_exit-leave c s m ne ne' (inr (z, e)) = ground arith

  -- A block that the pool hands out is not handed out yet, and joins those that are.
  pub alloc-Live :
      (s : api.State) (live : List Ptr)
      → api.Live s live
      → (api.alloc s).1 ≢ null
      → (¬ Mem (api.alloc s).1 live) × api.Live (api.alloc s).0 ((api.alloc s).1 ∷ live)
  alloc-Live s live v ne = elim (Bool-cases (ltb (length live) api.capacity)) [
    | inl y ↦ let (a, b, c) = api.alloc-ok s live v (ground arith) in (b, c)
    | inr n ↦
        let full = api.alloc-full s live v (ground (arith, api.live-le s live v)) in
        absurd (ne (rw full))
  ]

  -- A pool that hands out NULL stays as it is.
  pub alloc-null :
      (s : api.State) (live : List Ptr)
      → api.Live s live
      → (api.alloc s).1 ≡ null
      → api.alloc s ≡ (s, null)
  alloc-null s live v e = elim (Bool-cases (ltb (length live) api.capacity)) [
    | inl y ↦ absurd ((api.alloc-ok s live v (ground arith)).0 e)
    | inr n ↦ api.alloc-full s live v (ground (arith, api.live-le s live v))
  ]

  -- What a process may do between its start and its exit: anything to memory, to its registers and
  -- to the mark of the allocator, and nothing to the kernel's other state.
  pub record Ran (s s' : Kernel api) : Type 0 where
    pub same_pool : s'.procpool ≡ s.procpool
    pub same_procs : (p : Ptr) → s'.procs p ≡ s.procs p
    pub same_curp : s'.curp ≡ s.curp

  -- What is as it was before the process was started.
  pub record Restored (s s' : Kernel api) (live : List Ptr) (m : Memory) : Type 0 where
    pub curp : s'.curp ≡ s.curp
    pub ctx : s'.ctx ≡ s.ctx
    pub mark : s'.space.execbufp ≡ allocinit s.space.globals s.space.execbufp
    pub pool : api.Live s'.procpool live
    pub memory : s'.space.memory ≡ m
    pub others : (p : Ptr) → p ≢ s.curp → Mem p live → s'.procs p ≡ s.procs p

module _ (api : PoolApi) (config : Config) (argv code : Ptr) (c : ℤ) (s s1 s2 : Kernel api)
    (live : List Ptr) (m : Memory) (started : sys_run api config argv code s ≡ ok (pos 0) s1)
    (ran : Ran api s1 s2) (accounted : api.Live s.procpool live) (caller : Mem s.curp live)
    (stored : CodeStored code c s2.space.memory m) where
  abbrev newp : Ptr
  newp = (api.alloc s.procpool).1

  start : Started api s s1 code
  start = sys_run-Started api config argv code s s1 started

  now : s2.curp ≡ s1.curp
  now = ran.same_curp

  given : (¬ Mem newp live) × api.Live (api.alloc s.procpool).0 (newp ∷ live)
  given = alloc-Live api s.procpool live accounted (rw (← start.current) start.child)

  apart : s.curp ≢ s1.curp
  apart e = given.0 (rw (← start.current, ← e) caller)

  at_exit : s2.procs s2.curp ≡ s1.procs s1.curp
  at_exit = rw now (ran.same_procs s1.curp)

  -- A process that `sys_run` has started, whatever it has done to memory, its registers and the
  -- mark of the allocator, gives back by `sys_exit` all that it was given: the caller is current
  -- again with the registers of its call, the mark is where it was, the pool holds the same blocks,
  -- no other process's structure has changed, and the exit code is stored where the caller asked.
  pub sys_exit-sys_run :
      (s3 : Kernel api) × (sys_exit api c s2 ≡ ok (pos 0) s3) × Restored api s s3 live m
  sys_exit-sys_run = (
    _,
    sys_exit-leave api c s2 m (rw now start.child) (rw (at_exit, start.prev) start.caller)
        (rw (at_exit, start.code_at) stored),
    record {
      curp = rw (at_exit, start.prev);
      ctx = rw (at_exit, start.prev, ran.same_procs s.curp) (start.saved apart);
      mark = rw at_exit start.mark;
      pool =
          rw (ran.same_pool, start.pool, now, start.current)
            (api.free-ok (api.alloc s.procpool).0 newp [] live given.1);
      memory = refl;
      others = λ p ne i.
          ran.same_procs p ∙ start.others p (λ e. given.0 (rw (← start.current, ← e) i)) ne;
    },
  )
