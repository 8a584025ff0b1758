-- ===== src/System.antt =====
-- The kernel and its processes as a whole: `run_first` of kernel/ksys.c starts the first process,
-- and from then on a step is a stretch of a process's own code or a trap that `syscall_hnd` of
-- hosthal/exn.c handles. The invariant: the current process and those that wait for it are a chain
-- by their `prev`, and each has its own part of the arena.
pub mod Boot
pub mod Chain
pub mod End
pub mod Memory
pub mod First
pub mod Invariant
pub mod Launch
pub mod Return
pub mod Run
pub mod Start
pub mod Traps
use os.Prelude.{ℕ, ◌+◌, ◌≤◌, ◌≡◌, ◌≢◌, List, [], ◌∷◌, true, some}
use os.Prelude.Int.{ℤ, pos, pos_part}
use os.Machine.{ok}
use os.Machine.Memory.{Ptr, null}
use os.Hal.Trap.{syscall_hnd}
use os.Kernel.Alloc.{allocinit}
use os.Kernel.Alloc.Arena.{IsArena}
use os.Kernel.Init.{Globals}
use os.Kernel.Pool.Api.{PoolApi}
use os.Kernel.Process.{Kernel, Proc, run_first}
use os.Kernel.Space.{Config}
use os.Kernel.Syscall.{Console}

-- The program was given memory, and its size is not negative as an `int`.
abbrev pub HasMemory : Proc → Type 0
HasMemory v = (v.load ≢ null) × (v.loadsz ≡ pos (pos_part v.loadsz))

-- From its mark on, and below `top`, a process has its program and then its stack.
abbrev pub LiesBelow : (top : Ptr) → Proc → Type 0
LiesBelow top v =
    (v.freemark ≤ v.load) × (v.load + pos_part v.loadsz ≤ v.stack) × (v.stack + v.stacksz ≤ top)

-- The process at `p` was started by the first of `ps`, that by the next, and the last by the
-- kernel.
abbrev pub Links : (procs : Ptr → Proc) → (p : Ptr) → (ps : List Ptr) → Type 0
Links procs p [] = (procs p).prev ≡ null
Links procs p (q ∷ ps) = ((procs p).prev ≡ q) × (q ≢ null) × Links procs q ps

-- Each process lies between its own mark and the mark of the one that it has started.
abbrev pub Regions : Globals → (procs : Ptr → Proc) → (top p : Ptr) → (ps : List Ptr) → Type 0
Regions g procs top p [] = LiesBelow top (procs p)
Regions g procs top p (q ∷ ps) =
    LiesBelow top (procs p) × (g.mem ≤ (procs p).freemark) × Regions g procs (procs p).freemark q ps

module _ (api : PoolApi) where
  -- The current process is `p`, above `ps`, and no other has a block of the pool.
  pub record Nested (s : Kernel api) (p : Ptr) (ps : List Ptr) : Type 0 where
    pub curp : s.curp ≡ p
    pub not_null : p ≢ null
    pub links : Links s.procs p ps
    pub live : api.Live s.procpool (p ∷ ps)
    pub arena : IsArena s.space.globals s.space.execbufp
    pub regions : Regions s.space.globals s.procs (allocinit s.space.globals s.space.execbufp) p ps

  -- What the code of a process can change: memory and its registers.
  pub record Runs (s s' : Kernel api) : Type 0 where
    pub procpool : s'.procpool ≡ s.procpool
    pub procs : s'.procs ≡ s.procs
    pub curp : s'.curp ≡ s.curp
    pub globals : s'.space.globals ≡ s.space.globals
    pub execbufp : s'.space.execbufp ≡ s.space.execbufp

  module _ (config : Config) (args : ℕ) (console : Console) where
    -- A trap that the handler takes is one for a system call.
    pub data Step (s s' : Kernel api) : Type 0 where
      runs : Runs s s' → Step s s'
      trap : syscall_hnd api config args console s ≡ ok true s' → Step s s'

    pub data Reach (s : Kernel api) : Kernel api → Type 0 where
      here : Reach s s
      next : {t u : Kernel api} → Reach s t → Step t u → Reach s u

  -- If the first state's current process has started that of the second, this was given memory for
  -- its program, of a size that is not negative. `load` checks neither.
  abbrev pub Given : (s s' : Kernel api) → Type 0
  Given s s' = ((s'.procs s'.curp).prev ≡ s.curp) → HasMemory (s'.procs s'.curp)

  module _ (config : Config) (args : ℕ) (console : Console) where
    -- Every process that was started on the way was given memory.
    abbrev pub AllGiven : {s t : Kernel api} → Reach config args console s t → Type 0
    AllGiven here = Unit {0}
    AllGiven (next {t} {u} r step) = AllGiven r × Given t u
