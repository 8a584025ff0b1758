-- ===== src/Kernel/Print.antt =====
-- kernel/util.c: the kernel's messages. `msg` is the address of the local array, of 128 bytes; `f`
-- and `k` are the fuel of `vsnprintf`. `hal_halt` does not return.
use os.Prelude.{ℕ, List}
use os.LibC.Format.{Arg, vsnprintf, snprintf}
use os.Kernel.Syscall.{Console, dbg_out}
use os.Machine.{halted, ◌>>=◌, ◌>>◌}
use os.Machine.Memory.{Ptr, Prog}

module _ (console : Console) (f k : ℕ) (msg : Ptr) where
  -- The conversions of the format get no arguments: `found` is what `va_arg` finds in their place.
  unfoldable pub failed_assert : (format : Ptr) (found : List Arg) → Prog (Unit {0})
  unfolding snprintf dbg_out
  failed_assert format found = do
    len ← snprintf f k msg 128 format found
    dbg_out console msg len
    halted

  unfoldable pub kprint : (fmt : Ptr) → List Arg → Prog (Unit {0})
  unfolding vsnprintf dbg_out
  kprint fmt ap = do len ← vsnprintf f k msg 128 fmt ap; dbg_out console msg len

  unfoldable pub panic : (fmt : Ptr) → List Arg → Prog (Unit {0})
  unfolding vsnprintf dbg_out
  panic fmt ap = do len ← vsnprintf f k msg 128 fmt ap; dbg_out console msg len; halted
