-- ===== src/Hal/Trap/Exit.antt =====
-- Two traps: a process starts another, and that exits.
use mathlib.Core.List.{Mem}
use os.Prelude.{ℕ, ◌+◌, ◌%◌, ◌^◌, ◌≡◌, true, arith, List}
use os.Prelude.Int.{pos}
use os.Machine.{ok}
use os.Machine.Memory.{Ptr, Memory}
use os.Machine.Memory.Words.{load16}
use os.Hal.Context.{Context}
use os.Hal.Trap.{int_0x81, syscall_hnd}
use os.Kernel.Alloc.{allocinit}
use os.Kernel.Elf.{to_int}
use os.Kernel.Pool.Api.{PoolApi}
use os.Kernel.Process.{Kernel, sys_run, sys_exit}
use os.Kernel.Process.Exit.{CodeStored, Ran, sys_exit-sys_run}
use os.Kernel.Space.{Config}
use os.Kernel.Syscall.{Syscall, syscalls_num, Console, syscall_do}

-- The registers behind the trapping instruction.
abbrev pub behind : Context → Context
behind c = record c { rip = (c.rip + 2) % 2 ^ 64 }

module _ (api : PoolApi) (config : Config) (args : ℕ) (console : Console) where
  -- The current process has trapped by `int $0x81` for the system call.
  pub record Traps (s : Kernel api) (c : Syscall) : Type 0 where
    pub instr : load16 s.ctx.rip s.space.memory ≡ ok int_0x81 s.space.memory
    pub number : s.ctx.rax ≡ syscalls_num c

  abbrev advanced : Kernel api → Kernel api
  advanced s = record s { ctx = behind s.ctx }

  -- A trap for `exit` is `sys_exit` from behind the instruction, with 0 in the register of the
  -- context that is then current.
  pub trap_exit :
      (s s' : Kernel api)
      → Traps s Syscall.exit
      → sys_exit api (to_int s.ctx.rbx) (advanced s) ≡ ok (pos 0) s'
      → syscall_hnd api config args console s
        ≡ ok true (record s' { ctx = record s'.ctx { rax = 0 } })
  unfolding syscall_hnd syscall_do
  trap_exit s s' t e = ground (arith, t.instr, t.number)

  -- A trap for `run` with a result 0.
  pub trap_run :
      (s s' : Kernel api)
      → Traps s Syscall.run
      → sys_run api config s.ctx.rbx s.ctx.rcx (advanced s) ≡ ok (pos 0) s'
      → syscall_hnd api config args console s
        ≡ ok true (record s' { ctx = record s'.ctx { rax = 0 } })
  unfolding syscall_hnd syscall_do
  trap_run s s' t e = ground (arith, t.instr, t.number)

  -- The caller goes on behind its `int $0x81` with 0 as the result of the call.
  pub record Resumed (s s' : Kernel api) (live : List Ptr) (m : Memory) : Type 0 where
    pub curp : s'.curp ≡ s.curp
    pub ctx : s'.ctx ≡ record (behind s.ctx) { rax = 0 }
    pub mark : s'.space.execbufp ≡ allocinit s.space.globals s.space.execbufp
    pub pool : api.Live s'.procpool live
    pub memory : s'.space.memory ≡ m

  -- A process traps for `run`, and the process that this starts traps for `exit`, having done
  -- anything to memory, its registers and the mark of the allocator, but nothing to the kernel's
  -- other state. After the second trap the first process is current, behind its instruction, all
  -- its registers as at its trap but for the result, 0; the mark and the pool are as before, and
  -- the exit code, an `int`, is stored where the caller asked.
  pub syscall_hnd_resumes :
      (s s1 s2 : Kernel api) (live : List Ptr) (m : Memory)
      → Traps s Syscall.run
      → sys_run api config s.ctx.rbx s.ctx.rcx (advanced s) ≡ ok (pos 0) s1
      → Ran api s1 s2
      → Traps s2 Syscall.exit
      → api.Live s.procpool live
      → Mem s.curp live
      → CodeStored s.ctx.rcx (to_int s2.ctx.rbx) s2.space.memory m
      → (syscall_hnd api config args console s
          ≡ ok true (record s1 { ctx = record s1.ctx { rax = 0 } }))
        × ((s3 : Kernel api) × (syscall_hnd api config args console s2 ≡ ok true s3)
            × Resumed s s3 live m)
  syscall_hnd_resumes s s1 s2 live m t started ran t2 accounted caller stored =
      let ran' : Ran api s1 (advanced s2) = record {
        same_pool = ran.same_pool;
        same_procs = ran.same_procs;
        same_curp = ran.same_curp;
      } in
      let (s3, run, r) =
        sys_exit-sys_run api config s.ctx.rbx s.ctx.rcx (to_int s2.ctx.rbx) (advanced s) s1
          (advanced s2) live m started ran' accounted caller stored in
      (
        trap_run s s1 t started,
        (
          record s3 { ctx = record s3.ctx { rax = 0 } },
          trap_exit s2 s3 t2 run,
          record { curp = r.curp; ctx = rw r.ctx; mark = r.mark; pool = r.pool; memory = r.memory },
        ),
      )
