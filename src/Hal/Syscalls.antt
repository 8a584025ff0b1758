-- ===== src/Hal/Syscalls.antt =====
-- sysroot/include/kernel/syscall.h: the system calls as a program makes them. A call puts its
-- number and its arguments into registers and traps.
pub mod Returns
use os.Prelude.{ℕ, ◌+◌, ◌-◌, ◌%◌, ◌^◌, Bool}
use os.Prelude.Int.{ℤ, pos, negsuc}
use os.Machine.{Cmd, ok, pure, ◌>>=◌, ◌>>◌}
use os.Machine.Memory.{Ptr}
use os.Hal.Context.{Context}
use os.Hal.Trap.{syscall_hnd, get_ctx, set_ctx}
use os.Kernel.Elf.{to_int}
use os.Kernel.Pool.Api.{PoolApi}
use os.Kernel.Process.{Kernel}
use os.Kernel.Space.{Config}
use os.Kernel.Syscall.{Console, Syscall, run, getargv, exit, write, read, syscalls_num}

-- `(unsigned long) i` for an `int i`.
abbrev pub long_word : ℤ → ℕ
long_word (pos n) = n % 2 ^ 64
long_word (negsuc n) = 2 ^ 64 - 1 - n % 2 ^ 64

-- The operands of `int $0x81`.
unfoldable pub with_operands : (syscall : ℕ) (arg1 arg2 arg3 arg4 rest : ℕ) → Context → Context
with_operands syscall arg1 arg2 arg3 arg4 rest c = record c {
  rax = syscall;
  rbx = arg1;
  rcx = arg2;
  rdx = arg3;
  rsi = arg4;
  rdi = rest;
}

module _ (api : PoolApi) (config : Config) (args : ℕ) (console : Console) where
  -- The kernel handles the trap and the program goes on with the registers of its context. So it is
  -- for the calls that leave the process current, and not for `run` and `exit`.
  unfoldable pub os_syscall : (syscall : ℕ) (arg1 arg2 arg3 arg4 rest : ℕ) → Cmd (Kernel api) ℕ
  unfolding with_operands
  os_syscall syscall arg1 arg2 arg3 arg4 rest = do
    set_ctx api (with_operands syscall arg1 arg2 arg3 arg4 rest)
    syscall_hnd api config args console
    c ← get_ctx api
    pure c.rax

  -- The result is converted to `int`.
  abbrev pub int_syscall : Syscall → (arg1 arg2 arg3 arg4 : ℕ) → Cmd (Kernel api) ℤ
  int_syscall c arg1 arg2 arg3 arg4 = do
    ret ← os_syscall (syscalls_num c) arg1 arg2 arg3 arg4 0
    pure (to_int ret)

  unfoldable pub os_getargv : (buf : Ptr) (bufsz : ℤ) (argv : Ptr) (argvsz : ℤ) → Cmd (Kernel api) ℤ
  unfolding os_syscall
  os_getargv buf bufsz argv argvsz =
      int_syscall getargv buf (long_word bufsz) argv (long_word argvsz)

  unfoldable pub os_write : (fd : ℤ) (buf : Ptr) (len : ℕ) → Cmd (Kernel api) ℤ
  unfolding os_syscall
  os_write fd buf len = int_syscall write (long_word fd) buf len 0

  unfoldable pub os_read : (fd : ℤ) (buffer : Ptr) (size : ℕ) → Cmd (Kernel api) ℤ
  unfolding os_syscall
  os_read fd buffer size = int_syscall read (long_word fd) buffer size 0
