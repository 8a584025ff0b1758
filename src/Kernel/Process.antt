-- ===== src/Kernel/Process.antt =====
-- kernel/proc.h and kernel/ksys.c: processes, and the system calls that start and end them.
pub mod Run
pub mod Exit
pub mod Fail
use os.Prelude.{ℕ, ◌+◌, ◌==◌, ◌%◌, ◌^◌, ◌-◌, ◌*◌, ltb, if◌then◌else◌, Option, some, none}
use os.Prelude.Int.{ℤ, pos, negsuc}
use os.Machine.{Cmd, ok, fault, out_of_fuel, halted, pure, ◌>>=◌, ◌>>◌}
use os.Machine.Memory.{Ptr, null, Memory, Prog}
use os.Machine.Memory.Words.{load64, store32}
use os.Hal.Context.{Context, ctx_save, ctx_restore}
use os.Kernel.Elf.{Loaded, load}
use os.Kernel.Pool.Api.{PoolApi}
use os.Kernel.Space
use os.Kernel.Space.{Space, Config, on_memory, freeup, freemark}

-- `struct proc`
pub record Proc : Type 0 where
  pub prev : Ptr
  pub savectx : Context
  pub freemark : Ptr
  pub load : Ptr
  pub loadsz : ℤ
  pub stack : Ptr
  pub stacksz : ℕ
  pub argv : Ptr
  pub code : Ptr

-- The pattern of an `int` in memory.
abbrev pub int_word : ℤ → ℕ
int_word (pos n) = n % 2 ^ 32
int_word (negsuc n) = 2 ^ 32 - 1 - n % 2 ^ 32

-- `newp->stacksz = 0x2000;`
abbrev pub stack_size : ℕ
stack_size = 0x2000

module _ (api : PoolApi) where
  -- The kernel's state. `procs` holds the `struct proc` at each address of `procspace`, and `ctx`
  -- is the context of the process that has trapped.
  pub record Kernel : Type 0 where
    pub space : Space
    pub procpool : api.State
    pub procs : Ptr → Proc
    pub curp : Ptr
    pub ctx : Context

  -- The result, and the structure that it points to where it is not NULL.
  abbrev pub current_process : Kernel → Ptr × Proc
  current_process s = (s.curp, s.procs s.curp)

  abbrev pub in_space : {A : Type 0} → Cmd Space A → Cmd Kernel A
  in_space c s = elim (c s.space) [
    | ok a space ↦ ok a (record s { space = space })
    | fault ↦ fault
    | out_of_fuel ↦ out_of_fuel
    | halted space ↦ halted (record s { space = space })
  ]

  abbrev pub set_proc : Ptr → Proc → Kernel → Kernel
  set_proc p v s = record s { procs = λ q. if q == p then v else s.procs q }

  unfoldable pub pool_alloc : Cmd Kernel Ptr
  pool_alloc s = let r = api.alloc s.procpool in ok r.1 (record s { procpool = r.0 })

  unfoldable pub pool_free : Ptr → Cmd Kernel (Unit {0})
  pool_free p s = ok tt (record s { procpool = api.free s.procpool p })

  -- The last steps of `sys_run`: the caller's context is saved in its `struct proc`, and the new
  -- process becomes the current one. (A write through a NULL `curp` is a fault.)
  unfoldable pub switch_to : (newp entry stack argv code : Ptr) → Cmd Kernel ℤ
  unfolding ctx_save
  switch_to newp entry stack argv code s =
      if s.curp == null
      then fault
      else let ctxs = ctx_save s.ctx entry stack stack_size in
        let old = s.procs s.curp in
        let new = s.procs newp in
        let s = set_proc s.curp (record old { savectx = ctxs.1 }) s in
        let s = set_proc newp (record new { argv = argv; code = code; prev = s.curp }) s in
        ok (pos 0) (record s { ctx = ctxs.0; curp = newp })

  -- `goto failstack`
  unfoldable pub fail_stack : (newp : Ptr) → Cmd Kernel (Unit {0})
  unfolding pool_free
  fail_stack newp s = (in_space (freeup (s.procs newp).freemark) >> pool_free newp) s

  -- `newp->stacksz = 0x2000;` and what follows up to the test of the stack, which is returned.
  unfoldable pub alloc_stack : (newp : Ptr) → Loaded → Cmd Kernel Ptr
  alloc_stack newp loaded = do
    stack ← in_space (Space.alloc (pos stack_size))
    λ s.
        let new = record (s.procs newp) {
          load = loaded.load;
          loadsz = loaded.loadsz;
          stacksz = stack_size;
          stack = stack;
        } in
        ok stack (set_proc newp new s)

  unfoldable pub run_loaded : (newp argv code : Ptr) → Option Loaded → Cmd Kernel ℤ
  unfolding pool_free switch_to fail_stack alloc_stack
  run_loaded newp argv code none = do pool_free newp; pure (negsuc 0)
  run_loaded newp argv code (some loaded) = do
    stack ← alloc_stack newp loaded
    if stack == null
        then (fail_stack newp >> pure (negsuc 0))
        else switch_to newp loaded.entry stack argv code

  abbrev pub set_freemark : (newp mark : Ptr) → Cmd Kernel (Unit {0})
  set_freemark newp mark s = ok tt (set_proc newp (record (s.procs newp) { freemark = mark }) s)

  unfoldable pub sys_run : Config → (argv code : Ptr) → Cmd Kernel ℤ
  unfolding pool_alloc run_loaded
  sys_run config argv code = do
    argv0 ← in_space (on_memory (load64 argv))
    if argv0 == null then pure (negsuc 0) else do
      newp ← pool_alloc
      if newp == null then pure (negsuc 0) else do
        mark ← in_space freemark
        set_freemark newp mark
        loaded ← in_space (load config argv0)
        run_loaded newp argv code loaded

  -- The last steps of `run_first`.
  unfoldable pub enter_first : (newp entry argv : Ptr) → Cmd Kernel (Option Ptr)
  enter_first newp entry argv s =
      let new = record (s.procs newp) { argv = argv; code = null; prev = null } in
      ok (some entry) (record (set_proc newp new s) { curp = newp })

  unfoldable pub first_loaded : (newp argv : Ptr) → Option Loaded → Cmd Kernel (Option Ptr)
  unfolding pool_free fail_stack alloc_stack enter_first
  first_loaded newp argv none = do pool_free newp; pure none
  first_loaded newp argv (some loaded) = do
    stack ← alloc_stack newp loaded
    if stack == null then (fail_stack newp >> pure none) else enter_first newp loaded.entry argv

  -- `run_first`. Where it enters the first process the result is the entry; `none` is -1. A failed
  -- assertion halts.
  unfoldable pub run_first : Config → (argv : Ptr) → Cmd Kernel (Option Ptr)
  unfolding pool_alloc first_loaded
  run_first config argv = do
    newp ← pool_alloc
    if newp == null then halted else do
      set_freemark newp null
      argv0 ← in_space (on_memory (load64 argv))
      loaded ← in_space (load config argv0)
      first_loaded newp argv loaded

  -- `if (newp->code) { *newp->code = code; }`
  unfoldable pub put_code : (p : Ptr) → (code : ℤ) → Cmd Kernel (Unit {0})
  put_code p code = if p == null then pure tt else in_space (on_memory (store32 p (int_word code)))

  unfoldable pub restore_ctx : (oldp : Ptr) → Cmd Kernel (Unit {0})
  unfolding ctx_restore
  restore_ctx oldp s = ok tt (record s { ctx = ctx_restore s.ctx (s.procs oldp).savectx })

  -- `sys_exit` of a process that another has started.
  unfoldable pub leave : (newp oldp : Ptr) → (code : ℤ) → Cmd Kernel ℤ
  unfolding put_code restore_ctx pool_free
  leave newp oldp code = do
    λ s. put_code (s.procs newp).code code s
    restore_ctx oldp
    λ s. in_space (freeup (s.procs newp).freemark) s
    pool_free newp
    λ s. ok (pos 0) (record s { curp = oldp })

  -- The exit of the first process halts.
  unfoldable pub sys_exit : (code : ℤ) → Cmd Kernel ℤ
  unfolding leave
  sys_exit code s =
      if s.curp == null
      then fault
      else let oldp = (s.procs s.curp).prev in
        if oldp == null then halted s else leave s.curp oldp code s
