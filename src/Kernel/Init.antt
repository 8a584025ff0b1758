-- ===== src/Kernel/Init.antt =====
-- kernel/init.h and kernel/init.c: the globals that the HAL hands to the kernel.
use os.Prelude.{ℕ, List}
use os.Machine.Memory.{Ptr}

-- `struct kernel_globals`. The array `ptr_stack` has 25 entries.
pub record Globals : Type 0 where
  pub rootfs_cpio : Ptr
  pub mem : Ptr
  pub memsz : ℕ
  pub ptr_stack : List Ptr
  pub countstack : ℕ

-- `args` is not used. The entries of `ptr_stack` keep what they hold.
unfoldable pub kernel_init : (rootfs_cpio mem : Ptr) (sz : ℕ) → Globals → Globals
kernel_init rootfs_cpio mem sz g = record g {
  rootfs_cpio = rootfs_cpio;
  mem = mem;
  memsz = sz;
  countstack = 0;
}
