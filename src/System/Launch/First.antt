-- ===== src/System/Launch/First.antt =====
-- `run_first` with a program of the archive that can be started, and a free block.
use os.Prelude.{ℕ, ◌+◌, ◌-◌, ◌≡◌, ◌≢◌, List, arith, refl, some, ◌∙◌, ◌==◌, if◌then◌else◌}
use os.Kernel.Alloc.Arena.{IsArena, allocinit-bounds}
use os.Kernel.Cpio.Archive.{Entry}
use os.Kernel.Elf.{load}
use os.Kernel.Elf.Header.{Header}
use os.Kernel.Elf.Segment.{pages}
use os.Kernel.Pool.Api.{PoolApi}
use os.Kernel.Process.{Kernel, set_proc, run_first, first_loaded}
use os.Kernel.Space.{Config}
use os.Machine.{ok}
use os.Machine.Memory.{Ptr, Memory, null}
use os.Machine.Memory.Region.{Holds, SameOutside}
use os.System.{HasMemory}
use os.System.Launch.{mark_of, CanStart, loaded_at, loads, with_stack, alloc_stack-with_stack}
use os.System.Launch.Run.{behind-IsArena}

module _ (api : PoolApi) (config : Config) (argv : Ptr) (s : Kernel api) {e : Entry} {h : Header}
    {bytes : List ℕ} {vaddr memsz offset filesz : ℕ}
    (can : CanStart config s.space argv e h bytes vaddr memsz offset filesz) where
  abbrev newp : Ptr
  newp = (api.alloc s.procpool).1

  abbrev b : Ptr
  b = mark_of s.space

  abbrev stack : Ptr
  stack = b + pages memsz

  abbrev pub entry_of : Ptr
  entry_of = b + (h.entry - vaddr)

  -- After the program has been loaded, with the memory `m`.
  abbrev at_load : Memory → Kernel api
  at_load m = record s {
    space = record s.space { memory = m; execbufp = stack };
    procpool = (api.alloc s.procpool).0;
    procs = λ q. if q == newp then record (s.procs newp) { freemark = null } else s.procs q;
  }

  abbrev at_stack : Memory → Kernel api
  at_stack m = with_stack api newp stack (loaded_at b h vaddr memsz) (at_load m)

  -- The first process is current.
  abbrev pub entered : Memory → Kernel api
  entered m =
      let new = record ((at_stack m).procs newp) { argv = argv; code = null; prev = null } in
      record (set_proc api newp new (at_stack m)) { curp = newp }

  run_first-first_loaded :
      (m : Memory)
      → newp ≢ null
      → load config can.name s.space
        ≡ ok (some (loaded_at b h vaddr memsz)) (record s.space { memory = m; execbufp = stack })
      → run_first api config argv s
        ≡ first_loaded api newp argv (some (loaded_at b h vaddr memsz)) (at_load m)
  unfolding run_first
  run_first-first_loaded m ne run = ground (arith, can.argv0, ne, run)

  first_loaded-entered :
      (m : Memory)
      → IsArena s.space.globals s.space.execbufp
      → first_loaded api newp argv (some (loaded_at b h vaddr memsz)) (at_load m)
        ≡ ok (some entry_of) (entered m)
  unfolding first_loaded
  first_loaded-entered m arena =
      let (set, v) = behind-IsArena s.space (pages memsz) arena (omega (arith, can.room)) in
      ground (
        arith,
        alloc_stack-with_stack api newp stack (loaded_at b h vaddr memsz) (at_load m) refl v set
            can.room,
        set,
      )

  pub entered-HasMemory :
      (m : Memory) → IsArena s.space.globals s.space.execbufp → HasMemory ((entered m).procs newp)
  entered-HasMemory m arena = (ground (arith, allocinit-bounds arena), ground arith)

  pub run_first-entered :
      IsArena s.space.globals s.space.execbufp
      → newp ≢ null
      → (m : Memory) × (run_first api config argv s ≡ ok (some entry_of) (entered m))
        × Holds m b bytes
        × SameOutside b memsz s.space.memory m
  run_first-entered arena ne =
      let (m, run, holds, same) = loads config can in
      (m, run_first-first_loaded m ne run ∙ first_loaded-entered m arena, holds, same)
