-- ===== src/Hal/Syscalls/Returns.antt =====
-- What a system call gives the program that makes it.
use os.Prelude.{◌==◌, ◌≢◌, false, ℕ, ◌^◌, ◌≡◌, ◌≤◌, ◌<◌, arith, ap, refl}
use os.Prelude.Int.{ℤ, pos, negsuc, pos_part, neg_part}
use os.Hal.Syscalls.{long_word, with_operands, os_syscall, os_getargv}
use os.Hal.Trap.{int_0x81, syscall_hnd}
use os.Hal.Trap.Exit.{behind}
use os.Kernel.Args.{sys_getargv}
use os.Kernel.Elf.{to_int}
use os.Kernel.Pool.Api.{PoolApi}
use os.Kernel.Process.{Kernel, int_word, in_space}
use os.Kernel.Space.{Config, on_memory}
use os.Kernel.Syscall.{
  Console, Syscall, run, getargv, exit, write, read, syscalls_num, syscall_do, handler, Args,
}
use os.Machine.{ok, pure, >>=-ok}
use os.Machine.Memory.{Memory, Ptr, null}
use os.Machine.Memory.Words.{load16}

-- `z` is in the range of an `int`.
abbrev pub IsInt : ℤ → Type 0
IsInt z = (pos_part z < 2 ^ 31) × (neg_part z ≤ 2 ^ 31)

-- An `int` that is passed in a register comes out as it went in.
pub to_int-long_word : (z : ℤ) → IsInt z → to_int (long_word z) ≡ z
to_int-long_word (pos n) h = ground arith
to_int-long_word (negsuc n) h = ground arith

pub to_int-int_word : (z : ℤ) → IsInt z → to_int (int_word z) ≡ z
to_int-int_word (pos n) h = ground arith
to_int-int_word (negsuc n) h = ground arith

module _ (api : PoolApi) (config : Config) (args : ℕ) (console : Console) where
  -- The state in which the handler of a system call starts.
  abbrev pub called : (c : Syscall) (a : Args) → Kernel api → Kernel api
  called c a s = record s {
    ctx = behind (with_operands (syscalls_num c) a.arg1 a.arg2 a.arg3 a.arg4 0 s.ctx);
  }

  -- What a handler that returns gives.
  pub os_syscall_lem :
      (c : Syscall) (a : Args) (r : ℤ) (s s' : Kernel api)
      → load16 s.ctx.rip s.space.memory ≡ ok int_0x81 s.space.memory
      → handler api config args console c a (called c a s) ≡ ok r s'
      → os_syscall api config args console (syscalls_num c) a.arg1 a.arg2 a.arg3 a.arg4 0 s
        ≡ ok (int_word r) (record s' { ctx = record s'.ctx { rax = int_word r } })
  unfolding os_syscall syscall_hnd syscall_do with_operands
  os_syscall_lem run a r s s' instr e = ground (arith, instr, e)
  os_syscall_lem getargv a r s s' instr e = ground (arith, instr, e)
  os_syscall_lem exit a r s s' instr e = ground (arith, instr, e)
  os_syscall_lem write a r s s' instr e = ground (arith, instr, e)
  os_syscall_lem read a r s s' instr e = ground (arith, instr, e)

  -- With a current process and sizes that are of type `int`, `os_getargv` is `sys_getargv` of the
  -- same arguments, on the current process's argument vector: the program goes on behind the trap
  -- with its result, the memory that it leaves, and no other change but to the registers of the
  -- call.
  pub os_getargv_lem :
      (buf argv : Ptr) (bufsz argvsz r : ℤ) (s : Kernel api) (m : Memory)
      → s.curp ≢ null
      → IsInt bufsz
      → IsInt argvsz
      → IsInt r
      → load16 s.ctx.rip s.space.memory ≡ ok int_0x81 s.space.memory
      → sys_getargv config.chars args (s.procs s.curp).argv buf bufsz argv argvsz s.space.memory
        ≡ ok r m
      → os_getargv api config args console buf bufsz argv argvsz s
        ≡ ok r (record s {
          space = record s.space { memory = m };
          ctx =
              record (behind (
                with_operands
                  (syscalls_num getargv)
                  buf
                  (long_word bufsz)
                  argv
                  (long_word argvsz)
                  0
                  s.ctx)) { rax = int_word r };
        })
  unfolding os_getargv
  os_getargv_lem buf argv bufsz argvsz r s m current hb ha hr instr e =
      let a : Args = record {
        arg1 = buf;
        arg2 = long_word bufsz;
        arg3 = argv;
        arg4 = long_word argvsz;
      } in
      let no_null : (s.curp == null) ≡ false = ground (arith, current) in
      let s' : Kernel api = record (called getargv a s) { space = record s.space { memory = m } } in
      let handled : handler api config args console getargv a (called getargv a s) ≡ ok r s' =
        rw (no_null, to_int-long_word bufsz hb, to_int-long_word argvsz ha, e, in_space, on_memory)
          refl in
      let end : Kernel api = record s' { ctx = record s'.ctx { rax = int_word r } } in
      >>=-ok (os_syscall api config args console 1 buf (long_word bufsz) argv (long_word argvsz) 0)
        (λ ret. pure (to_int ret)) {s = s} {t = end} (os_syscall_lem getargv a r s s' instr handled)
        (ap (λ z. ok z end) (to_int-int_word r hr))
