-- ===== src/Tests/Process.antt =====
-- A process that starts the program of the archive, which exits with code 7.
use mathlib.Core.List.{Mem, mem-cons}
use mathlib.Core.Logic.Or
use os.Prelude.{◌≡◌, refl, [], ◌∷◌, inr, true, arith}
use os.Prelude.Int.{ℤ, pos, negsuc, ◌-ℤ◌}
use os.Machine.{Run, ok}
use os.Machine.Memory.{Memory, Ptr}
use os.Machine.Memory.Words.{load64, load16, store32}
use os.Hal.Trap.{syscall_hnd}
use os.Hal.Trap.Exit.{behind, Traps, Resumed, syscall_hnd_resumes}
use os.Kernel.Align.{align}
use os.Kernel.Alloc
use os.Kernel.Cpio.{find_exe}
use os.Kernel.Elf.{find_load, load}
use os.Kernel.Pool.{pool_alloc}
use os.Kernel.Process.{Kernel, sys_run, sys_exit}
use os.Kernel.Process.Exit.{Ran, Restored, sys_exit-sys_run}
use os.Kernel.Process.Fail.{Undone, sys_run_fails}
use os.Kernel.Space
use os.Kernel.Syscall.{Syscall, Console}
use os.LibC.Copy.{memcmp, memcpy, memset}
use os.LibC.Scan.{strcmp}
use os.Tests.Image.{api, config, kernel, procspace, pool-IsLive}

abbrev state_of : Run (Kernel api) ℤ → Kernel api
state_of (ok r s) = s
state_of _ = kernel

-- Its unfolding line is what a run of `sys_run` goes through.
abbrev run_program : (argv : Ptr) → Kernel api → Run (Kernel api) ℤ
unfolding sys_run load64 pool_alloc Space.freemark load find_exe strcmp ◌-ℤ◌ memcmp align find_load
    Space.alloc memset Alloc.alloc Alloc.allocinit Alloc.freemark memcpy
run_program argv s = sys_run api config argv 0x3020 s

-- The process that has trapped, behind its instruction, and the program that it has started.
abbrev caller : Kernel api
caller = record kernel { ctx = behind kernel.ctx }

abbrev started : Kernel api
started = state_of (sys_run api config 0x3000 0x3020 caller)

started_lem : sys_run api config 0x3000 0x3020 caller ≡ ok (pos 0) started
unfolding run_program
started_lem = refl

-- The program at its `int $0x81`, for `exit(7)`.
abbrev exiting : Kernel api
exiting = record started { ctx = record started.ctx { rax = 2; rbx = 7 } }

exiting-Ran : Ran api started exiting
exiting-Ran = record { same_pool = refl; same_procs = λ p. refl; same_curp = refl }

abbrev memory_of : Run Memory (Unit {0}) → Memory
memory_of (ok r m) = m
memory_of _ = λ a. kernel.space.memory a

abbrev code_memory : Memory
code_memory = memory_of (store32 0x3020 7 started.space.memory)

stored_lem : store32 0x3020 7 started.space.memory ≡ ok tt code_memory
unfolding run_program store32
stored_lem = refl

caller-mem : Mem procspace (procspace ∷ [])
caller-mem = mem-cons.1 (Or.inl refl)

sys_exit-sys_run_example :
    (s3 : Kernel api) × (sys_exit api (pos 7) exiting ≡ ok (pos 0) s3)
    × Restored api caller s3 (procspace ∷ []) code_memory
sys_exit-sys_run_example =
    sys_exit-sys_run api config 0x3000 0x3020 (pos 7) caller started exiting (procspace ∷ [])
      code_memory started_lem exiting-Ran pool-IsLive caller-mem (inr (ground arith, stored_lem))

abbrev console : Console
console = record { host_read = λ buf len m. ok (pos 0) m; host_write = λ msg len m. ok tt m }

kernel-Traps : Traps api config 4 console kernel Syscall.run
unfolding load16
kernel-Traps = record { instr = refl; number = refl }

exiting-Traps : Traps api config 4 console exiting Syscall.exit
unfolding run_program load16
exiting-Traps = record { instr = refl; number = refl }

syscall_hnd_resumes_example :
    (syscall_hnd api config 4 console kernel
      ≡ ok true (record started { ctx = record started.ctx { rax = 0 } }))
    × ((s3 : Kernel api) × (syscall_hnd api config 4 console exiting ≡ ok true s3)
        × Resumed api config 4 console kernel s3 (procspace ∷ []) code_memory)
syscall_hnd_resumes_example =
    syscall_hnd_resumes api config 4 console kernel started exiting (procspace ∷ []) code_memory
      kernel-Traps started_lem exiting-Ran exiting-Traps pool-IsLive caller-mem
      (inr (ground arith, stored_lem))

-- An argument vector that is empty is refused.
abbrev refused : Kernel api
refused = state_of (sys_run api config 0x3008 0 kernel)

refused_lem : sys_run api config 0x3008 0 kernel ≡ ok (negsuc 0) refused
unfolding run_program
refused_lem = refl

sys_run_fails_example : Undone api config 0x3008 0 kernel (procspace ∷ []) refused
sys_run_fails_example =
    sys_run_fails api config 0x3008 0 kernel refused (procspace ∷ []) pool-IsLive refused_lem
