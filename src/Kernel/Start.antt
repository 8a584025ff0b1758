-- ===== src/Kernel/Start.antt =====
-- kernel/init.c: `kernel_start`, which starts the shell.
use os.Prelude.{ℕ, ◌+◌, Option, some, none, []}
use os.Kernel.Pool.Api.{PoolApi}
use os.Kernel.Print.{panic}
use os.Kernel.Process.{Kernel, in_space, run_first}
use os.Kernel.Space.{Config, on_memory}
use os.Kernel.Syscall.{Console}
use os.Machine.{Cmd, pure, ◌>>=◌, ◌>>◌}
use os.Machine.Memory.{Ptr, null}
use os.Machine.Memory.Words.{store64}

-- The addresses of the local arrays of `kernel_start` and `panic`, and of the literals "shell" and
-- "first process failed".
pub record StartFrame : Type 0 where
  pub argv : Ptr
  pub msg : Ptr
  pub shell : Ptr
  pub failed : Ptr

-- Where `run_first` enters the first process it does not return, and the result is the entry. So
-- the second call of `panic` is not reached.
module _ (api : PoolApi) (config : Config) (console : Console) (f k : ℕ) (frame : StartFrame) where
  unfoldable pub started : Option Ptr → Cmd (Kernel api) (Option Ptr)
  unfolding panic
  started (some entry) = pure (some entry)
  started none = do
    in_space api (on_memory (panic console f k frame.msg frame.failed []))
    pure none

  unfoldable pub kernel_start : Cmd (Kernel api) (Option Ptr)
  unfolding run_first started
  kernel_start = do
    in_space api (on_memory (store64 frame.argv frame.shell))
    in_space api (on_memory (store64 (frame.argv + 8) null))
    first ← run_first api config frame.argv
    started first
