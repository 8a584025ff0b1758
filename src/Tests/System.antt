-- ===== src/Tests/System.antt =====
-- The first process of an arena of 32 KB starts a second one, which exits.
use mathlib.Core.List.Perm
use os.Prelude.{
  ◌+◌, ◌≡◌, ◌≤◌, refl, List, [], ◌∷◌, inr, true, some, none, Option, arith, length, Bool,
}
use os.Prelude.Int.{pos, pos_part, ◌-ℤ◌}
use os.Machine.{Run, ok}
use os.Machine.Memory.{Memory, Ptr, null}
use os.Machine.Memory.Words.{load64, load16, store32}
use os.Hal.Trap.{syscall_hnd}
use os.Hal.Trap.Exit.{Traps}
use os.Kernel.Align.{align}
use os.Kernel.Alloc
use os.Kernel.Alloc.Arena.{IsArena}
use os.Kernel.Cpio.{find_exe}
use os.Kernel.Elf.{to_int, find_load, load}
use os.Kernel.Pool.{Pool, pool_initializer, pool_alloc}
use os.Kernel.Pool.Live.{IsLive, pool_initializer-IsLive}
use os.Kernel.Process.{Kernel, run_first, sys_run}
use os.Kernel.Process.Exit.{CodeStored}
use os.Kernel.Space
use os.Kernel.Syscall.{Console, Syscall, syscall_do}
use os.LibC.Copy.{memcmp, memcpy, memset}
use os.LibC.Scan.{strcmp}
use os.System.{Given, Nested, Step, here, next, trap, HasMemory}
use os.System.First.{run_first-Nested}
use os.System.Invariant.{reached-Nested, reached-ordered}
use os.System.Return.{exit_returns}
use os.System.Traps.{Step-Moved, Moved, Runs-Nested}
use os.Tests.Image.{api, slist, config, kernel, procspace, space, globals}

abbrev pub console : Console
console = record { host_read = λ buf len m. ok (pos 0) m; host_write = λ msg len m. ok tt m }

abbrev pub fresh : Pool slist
fresh = record {
  mem = procspace;
  membsz = 0x100;
  freestart = procspace;
  freeend = 0x8800;
  freehead = [];
}

pub fresh-IsLive : IsLive slist 8 fresh []
unfolding pool_initializer
fresh-IsLive = pool_initializer-IsLive slist 8 procspace 0x100 (omega arith) (omega arith)

abbrev boot : Kernel api
boot = record kernel {
  space = record space { globals = record globals { memsz = 0x8000 } };
  procpool = fresh;
  curp = null;
}

boot-IsArena : IsArena boot.space.globals boot.space.execbufp
boot-IsArena = record {
  not_null = omega arith;
  above = λ ne. absurd (ne refl);
  below = omega arith;
}

abbrev first_of : Run (Kernel api) (Option Ptr) → Kernel api
first_of (ok r s) = s
first_of _ = boot

abbrev trapped : Run (Kernel api) Bool → Kernel api
trapped (ok r s) = s
trapped _ = boot

-- Its unfolding line is what the runs go through.
unfoldable pub begin : Kernel api → Run (Kernel api) (Option Ptr)
unfolding run_first sys_run load64 load16 pool_alloc Space.freemark load find_exe strcmp ◌-ℤ◌ memcmp
    align find_load Space.alloc memset Alloc.alloc Alloc.allocinit Alloc.freemark memcpy
begin s = run_first api config 0x3000 s

abbrev pub first : Kernel api
first = first_of (run_first api config 0x3000 boot)

first_lem : run_first api config 0x3000 boot ≡ ok (some 0x10000) first
unfolding begin
first_lem = refl

first-HasMemory : HasMemory (first.procs first.curp)
unfolding begin
first-HasMemory = (omega arith, refl)

-- It traps for `run`.
abbrev pub second : Kernel api
second = trapped (syscall_hnd api config 4 console first)

second_lem : syscall_hnd api config 4 console first ≡ ok true second
unfolding begin syscall_hnd syscall_do
second_lem = refl

second-HasMemory : HasMemory (second.procs second.curp)
unfolding begin syscall_hnd syscall_do
second-HasMemory = (omega arith, refl)

starts : Step api config 4 console first second
starts = trap second_lem

second-Given : Given api first second
second-Given e = second-HasMemory

reached-Nested_example :
    (p : Ptr) × (ps : List Ptr) × Nested api second p ps × (length (p ∷ ps) ≤ 8)
reached-Nested_example =
    reached-Nested api config 4 console 0x3000 0x10000 boot first second fresh-IsLive boot-IsArena
      first_lem first-HasMemory (next here starts) (tt, second-Given)

Step-Moved_example : Moved api procspace [] second
unfolding pool_alloc
Step-Moved_example = Step-Moved api config 4 console first second procspace [] starts second-Given (
    run_first-Nested api config 0x3000 0x10000 boot first fresh-IsLive boot-IsArena first_lem
      first-HasMemory)

-- The second process has the second block.
abbrev child : Ptr
child = 0x8100

second-IsLive : IsLive slist 8 second.procpool (child ∷ procspace ∷ [])
unfolding begin syscall_hnd syscall_do
second-IsLive = record {
  used = 2;
  start = refl;
  stop = refl;
  bound = omega arith;
  size = omega arith;
  not_null = omega arith;
  account = Perm.refl _;
}

second-Nested : Nested api second child (procspace ∷ [])
unfolding begin syscall_hnd syscall_do
second-Nested = record {
  curp = refl;
  not_null = omega arith;
  links = (refl, omega arith, refl);
  live = second-IsLive;
  arena = record { not_null = omega arith; above = λ ne. omega arith; below = omega arith };
  regions = omega arith;
}

reached-ordered_example :
    ((second.procs procspace).load + pos_part (second.procs procspace).loadsz
      ≤ (second.procs procspace).stack)
    × ((second.procs procspace).stack + (second.procs procspace).stacksz
        ≤ (second.procs child).load)
    × ((second.procs child).load + pos_part (second.procs child).loadsz
        ≤ (second.procs child).stack)
reached-ordered_example =
    reached-ordered api config 4 console 0x3000 0x10000 boot first second child child procspace
      (procspace ∷ []) 0 1 fresh-IsLive boot-IsArena first_lem first-HasMemory (next here starts)
      (tt, second-Given) second-Nested.curp second-Nested.links (omega arith) refl refl

-- It traps for `exit(7)`.
abbrev leaving : Kernel api
leaving = record second { ctx = record second.ctx { rax = 2; rbx = 7 } }

leaving-Nested : Nested api leaving child (procspace ∷ [])
leaving-Nested =
    Runs-Nested api second leaving child (procspace ∷ [])
      (record { procpool = refl; procs = refl; curp = refl; globals = refl; execbufp = refl })
      second-Nested

abbrev memory_of : Run Memory (Unit {0}) → Memory
memory_of (ok r m) = m
memory_of _ = λ a. none

abbrev code_memory : Memory
code_memory = memory_of (store32 0x3020 7 leaving.space.memory)

stored_lem :
    CodeStored (leaving.procs child).code (to_int leaving.ctx.rbx) leaving.space.memory code_memory
unfolding begin syscall_hnd syscall_do store32
stored_lem = inr (omega arith, refl)

leaving-Traps : Traps api config 4 console leaving Syscall.exit
unfolding begin syscall_hnd syscall_do
leaving-Traps = record { instr = refl; number = refl }

exit_returns_example :
    (s' : Kernel api) × (syscall_hnd api config 4 console leaving ≡ ok true s')
    × Nested api s' procspace []
    × (s'.ctx ≡ record (leaving.procs procspace).savectx { rax = 0 })
    × (s'.space.memory ≡ code_memory)
exit_returns_example =
    exit_returns api config 4 console leaving child procspace [] code_memory leaving-Nested
      leaving-Traps stored_lem
