-- ===== src/Kernel/Syscall.antt =====
-- kernel/syscall.c and the list of system calls in sysroot/include/kernel/syscall.h, with
-- `sys_read` and `sys_write` of kernel/ksys.c. What the host's `read` and `fwrite` do is a
-- parameter.
use os.Prelude.{◌==◌, if◌then◌else◌, ℕ, List, [], ◌∷◌, some, none, get_elem?}
use os.Prelude.Int.{ℤ, pos}
use os.Machine.{Cmd, fault, pure, ◌>>=◌, ◌>>◌}
use os.Machine.Memory.{Ptr, Prog, null}
use os.Kernel.Args.{sys_getargv}
use os.Kernel.Elf.{to_int}
use os.Kernel.Pool.Api.{PoolApi}
use os.Kernel.Process.{Kernel, in_space, sys_run, sys_exit, int_word}
use os.Kernel.Space.{Config, on_memory}

-- `enum syscalls_num`
pub data Syscall : Type 0 where
  run getargv exit write read : Syscall

abbrev pub syscalls_num : Syscall → ℕ
syscalls_num run = 0
syscalls_num getargv = 1
syscalls_num exit = 2
syscalls_num write = 3
syscalls_num read = 4

-- The arguments are words; an `int` parameter takes the low 32 bits.
pub record Args : Type 0 where
  pub arg1 : ℕ
  pub arg2 : ℕ
  pub arg3 : ℕ
  pub arg4 : ℕ

-- `dbg_in` and `dbg_out` of hosthal/dbg.c: the host's `read` of the input, and its `fwrite` and
-- `fflush` of the output.
pub record Console : Type 0 where
  pub host_read : (buf : Ptr) → (len : ℤ) → Prog ℤ
  pub host_write : (msg : Ptr) → (len : ℤ) → Prog (Unit {0})

unfoldable pub dbg_out : Console → (msg : Ptr) → (len : ℤ) → Prog (Unit {0})
dbg_out console msg len = console.host_write msg len

unfoldable pub dbg_in : Console → (inp : Ptr) → (len : ℤ) → Prog ℤ
dbg_in console inp len = console.host_read inp len

unfoldable pub sys_read : Console → (buf : Ptr) → (sz : ℕ) → Prog ℤ
unfolding dbg_in
sys_read console buf sz = dbg_in console buf (to_int sz)

unfoldable pub sys_write : Console → (buf : Ptr) → (sz : ℕ) → Prog ℤ
unfolding dbg_out
sys_write console buf sz = do dbg_out console buf (to_int sz); pure (pos 0)

abbrev pub sys_table : List Syscall
sys_table = run ∷ getargv ∷ exit ∷ write ∷ read ∷ []

-- What the handlers are given besides the registers: the fuel for the arguments of a process, the
-- loader's `Config`, and the console.
module _ (api : PoolApi) (config : Config) (args : ℕ) (console : Console) where
  -- The call of a handler through the table.
  abbrev pub handler : Syscall → Args → Cmd (Kernel api) ℤ
  handler run a = sys_run api config a.arg1 a.arg2
  handler getargv a = λ s.
      if s.curp == null
      then fault
      else in_space api
          (on_memory (
            sys_getargv config.chars args (s.procs s.curp).argv a.arg1 (to_int a.arg2) a.arg3
              (to_int a.arg4)))
          s
  handler exit a = sys_exit api (to_int a.arg1)
  handler write a = in_space api (on_memory (sys_write console a.arg2 a.arg3))
  handler read a = in_space api (on_memory (sys_read console a.arg2 a.arg3))

  -- The number is not checked: one outside the table reads outside the array. An `int` result is
  -- the low half of the word that is returned.
  unfoldable pub syscall_do : (sysnum : ℤ) → Args → Cmd (Kernel api) ℕ
  syscall_do (pos n) a = elim (get_elem? sys_table n) [
    | none ↦ λ _. fault
    | some c ↦ handler c a >>= λ r. pure (int_word r)
  ]
  syscall_do sysnum a = λ _. fault
