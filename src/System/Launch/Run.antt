-- ===== src/System/Launch/Run.antt =====
-- `sys_run` with a program of the archive that can be started, and a free block.
use os.Prelude.{ℕ, ◌+◌, ◌-◌, ◌≤◌, ◌≡◌, ◌≢◌, List, arith, refl, some, ◌∙◌, ◌==◌, if◌then◌else◌}
use os.Prelude.Int.{pos}
use os.Hal.Context.{ctx_save}
use os.Kernel.Alloc
use os.Kernel.Alloc.{allocinit}
use os.Kernel.Alloc.Arena.{IsArena, allocinit-bounds}
use os.Kernel.Cpio.Archive.{Entry}
use os.Kernel.Elf.{load}
use os.Kernel.Elf.Header.{Header}
use os.Kernel.Elf.Segment.{pages}
use os.Kernel.Pool.Api.{PoolApi}
use os.Kernel.Process.{Kernel, set_proc, sys_run, run_loaded, stack_size}
use os.Kernel.Space
use os.Kernel.Space.{Space, Config}
use os.Machine.{ok}
use os.Machine.Memory.{Ptr, Memory, null}
use os.Machine.Memory.Region.{Holds, SameOutside}
use os.System.{HasMemory}
use os.System.Run.{allocinit_set}
use os.System.Launch.{
  mark_of, marked, CanStart, loaded_at, loads, with_stack, alloc_stack-with_stack,
}

pub mark_kept :
    (s : Space) → IsArena s.globals s.execbufp → allocinit s.globals (mark_of s) ≡ mark_of s
mark_kept s arena = allocinit_set s.globals (mark_of s) (allocinit-bounds arena).0

-- The mark behind a program for which there is room.
pub behind-IsArena :
    (s : Space) (n : ℕ)
    → IsArena s.globals s.execbufp
    → mark_of s + n ≤ s.globals.mem + s.globals.memsz
    → (mark_of s + n ≢ null) × IsArena s.globals (mark_of s + n)
behind-IsArena s n arena room =
    let inside = allocinit-bounds arena in
    (
      ground (arith, inside),
      record { not_null = arena.not_null; above = λ _. omega (arith, inside); below = room },
    )

module _ (api : PoolApi) (config : Config) (argv code : Ptr) (s : Kernel api) {e : Entry}
    {h : Header} {bytes : List ℕ} {vaddr memsz offset filesz : ℕ}
    (can : CanStart config (marked s.space) argv e h bytes vaddr memsz offset filesz) where
  abbrev newp : Ptr
  newp = (api.alloc s.procpool).1

  abbrev b : Ptr
  b = mark_of s.space

  abbrev stack : Ptr
  stack = b + pages memsz

  -- After the program has been loaded, with the memory `m`.
  abbrev at_load : Memory → Kernel api
  at_load m = record s {
    space = record s.space { memory = m; execbufp = stack };
    procpool = (api.alloc s.procpool).0;
    procs = λ q. if q == newp then record (s.procs newp) { freemark = b } else s.procs q;
  }

  abbrev at_stack : Memory → Kernel api
  at_stack m = with_stack api newp stack (loaded_at b h vaddr memsz) (at_load m)

  -- After the switch to the new process.
  abbrev pub started : Memory → Kernel api
  started m =
      let at = at_stack m in
      let old = record (at.procs s.curp) { savectx = s.ctx } in
      let new = record (at.procs newp) { argv = argv; code = code; prev = s.curp } in
      record (set_proc api newp new (set_proc api s.curp old at)) {
        ctx = (ctx_save s.ctx (b + (h.entry - vaddr)) stack stack_size).0;
        curp = newp;
      }

  sys_run-run_loaded :
      (m : Memory)
      → newp ≢ null
      → load config can.name (marked s.space)
        ≡ ok (some (loaded_at b h vaddr memsz)) (record s.space { memory = m; execbufp = stack })
      → sys_run api config argv code s
        ≡ run_loaded api newp argv code (some (loaded_at b h vaddr memsz)) (at_load m)
  unfolding sys_run Space.freemark Alloc.freemark
  sys_run-run_loaded m ne run = ground (arith, can.argv0, can.name_set, ne, run)

  run_loaded-started :
      (m : Memory)
      → IsArena s.space.globals s.space.execbufp
      → s.curp ≢ null
      → run_loaded api newp argv code (some (loaded_at b h vaddr memsz)) (at_load m)
        ≡ ok (pos 0) (started m)
  unfolding run_loaded
  run_loaded-started m arena ne =
      let room = rw (mark_kept s.space arena) at (can.room) in
      let (set, v) = behind-IsArena s.space (pages memsz) arena (omega (arith, room)) in
      ground (
        arith,
        alloc_stack-with_stack api newp stack (loaded_at b h vaddr memsz) (at_load m) refl v set
            room,
        set,
      )

  started-HasMemory :
      (m : Memory) → IsArena s.space.globals s.space.execbufp → HasMemory ((started m).procs newp)
  started-HasMemory m arena = (ground (arith, allocinit-bounds arena), ground arith)

  pub sys_run-started :
      IsArena s.space.globals s.space.execbufp
      → s.curp ≢ null
      → newp ≢ null
      → (m : Memory) × (sys_run api config argv code s ≡ ok (pos 0) (started m))
        × HasMemory ((started m).procs newp)
        × Holds m b bytes
        × SameOutside b memsz s.space.memory m
  sys_run-started arena caller ne =
      let (m, run, holds, same) = loads config can in
      (
        m,
        sys_run-run_loaded m ne (rw (mark_kept s.space arena) at run)
            ∙ run_loaded-started m arena caller,
        started-HasMemory m arena,
        rw (mark_kept s.space arena) at holds,
        rw (mark_kept s.space arena) at same,
      )
