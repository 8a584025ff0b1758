-- ===== src/System/Boot.antt =====
-- `kernel_start` of kernel/init.c, up to the entry of the first process.
pub mod Main
use os.Prelude.{ℕ, ◌+◌, ◌-◌, ◌<◌, ◌≡◌, List, [], arith, some}
use os.Kernel.Alloc.Arena.{IsArena}
use os.Kernel.Cpio.Archive.{Entry}
use os.Kernel.Elf.Header.{Header}
use os.Kernel.Pool.Api.{PoolApi}
use os.Kernel.Process.{Kernel}
use os.Kernel.Space.{Config}
use os.Kernel.Start.{StartFrame, kernel_start}
use os.Kernel.Syscall.{Console}
use os.Machine.{ok}
use os.Machine.Memory.{Ptr, Memory, null}
use os.Machine.Memory.Region.{Holds, SameOutside}
use os.Machine.Memory.Words.{store64}
use os.System.{Nested}
use os.System.First.{run_first-Nested}
use os.System.Launch.{mark_of, CanStart}
use os.System.Launch.First

-- The stores of `kernel_start` into its array.
pub record Argv (frame : StartFrame) (m m' : Memory) : Type 0 where
  pub mid : Memory
  pub shell : store64 frame.argv frame.shell m ≡ ok tt mid
  pub last : store64 (frame.argv + 8) null mid ≡ ok tt m'

abbrev pub with_memory : {api : PoolApi} → Kernel api → Memory → Kernel api
with_memory s m = record s { space = record s.space { memory = m } }

module _ (api : PoolApi) where
  -- The first process is current, alone, and about to run its program, which stands at the mark.
  pub record FirstRuns (s s' : Kernel api) (argv : Ptr) (bytes : List ℕ) (size : ℕ) : Type 0 where
    pub nested : Nested api s' (api.alloc s.procpool).1 []
    pub args : (s'.procs (api.alloc s.procpool).1).argv ≡ argv
    pub holds : Holds s'.space.memory (mark_of s.space) bytes
    pub same : SameOutside (mark_of s.space) size s.space.memory s'.space.memory

  module _ (config : Config) (console : Console) (f k : ℕ) (frame : StartFrame) (s : Kernel api)
      (m : Memory) {e : Entry} {h : Header} {bytes : List ℕ} {vaddr size offset filesz : ℕ} where
    -- `kernel_start` with a block in the pool and a program that can be started.
    pub kernel_start_runs :
        api.Live s.procpool []
        → 0 < api.capacity
        → IsArena s.space.globals s.space.execbufp
        → Argv frame s.space.memory m
        → CanStart config
            (record s.space { memory = m })
            frame.argv
            e
            h
            bytes
            vaddr
            size
            offset
            filesz
        → (s' : Kernel api) × (kernel_start api config console f k frame s
            ≡ ok (some (mark_of s.space + (h.entry - vaddr))) s')
          × FirstRuns (with_memory s m) s' frame.argv bytes size
    unfolding kernel_start
    kernel_start_runs empty room arena stores can =
        let t : Kernel api = with_memory s m in
        let ne = (api.alloc-ok s.procpool [] empty room).0 in
        let (m', run, holds, same) = First.run_first-entered api config frame.argv t can arena ne in
        let s' : Kernel api = First.entered api config frame.argv t can m' in
        (
          s',
          ground (arith, stores.shell, stores.last, run),
          record {
            nested =
                run_first-Nested api config frame.argv _ t s' empty arena run
                  (First.entered-HasMemory api config frame.argv t can m' arena);
            args = ground arith;
            holds = holds;
            same = same;
          },
        )
