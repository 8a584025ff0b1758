-- ===== src/Hal/Trap.antt =====
-- hosthal/exn.c: `syscall_hnd`, the handler of the fault that `int $0x81` raises.
pub mod Exit
use os.Prelude.{ℕ, ◌+◌, ◌%◌, ◌^◌, ◌==◌, Bool, true, false, if◌then◌else◌, not}
use os.Machine.{Cmd, ok, pure, ◌>>=◌, ◌>>◌}
use os.Machine.Memory.Words.{load16}
use os.Hal.Context.{Context}
use os.Kernel.Elf.{to_int}
use os.Kernel.Pool.Api.{PoolApi}
use os.Kernel.Process.{Kernel, in_space}
use os.Kernel.Space.{Config, on_memory}
use os.Kernel.Syscall.{Args, Console, syscall_do}

-- The two bytes of `int $0x81`.
abbrev pub int_0x81 : ℕ
int_0x81 = 0x81cd

module _ (api : PoolApi) where
  abbrev pub set_ctx : (Context → Context) → Cmd (Kernel api) (Unit {0})
  set_ctx f s = ok tt (record s { ctx = f s.ctx })

  abbrev pub get_ctx : Cmd (Kernel api) Context
  get_ctx s = ok s.ctx s

  abbrev pub args_of : Context → Args
  args_of c = record { arg1 = c.rbx; arg2 = c.rcx; arg3 = c.rdx; arg4 = c.rsi }

  -- The context is the kernel's `ctx`, which a system call may replace before the result is put
  -- into it.
  unfoldable pub syscall_hnd :
      (config : Config) (args : ℕ) (console : Console) → Cmd (Kernel api) Bool
  syscall_hnd config args console = do
    c ← get_ctx
    instr ← in_space api (on_memory (load16 c.rip))
    if not (instr == int_0x81) then pure false else do
      set_ctx (λ c. record c { rip = (c.rip + 2) % 2 ^ 64 })
      ret ← syscall_do api config args console (to_int c.rax) (args_of c)
      set_ctx (λ c. record c { rax = ret })
      pure true
