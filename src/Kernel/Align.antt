-- ===== src/Kernel/Align.antt =====
-- kernel/util.h: `align` and `min`.
pub mod Mask
use Prim.Native.Nat.{bit_and}
use os.Prelude.{ℕ, ◌+◌, ◌-◌, ◌%◌, ◌^◌, if◌then◌else◌}
use os.Prelude.Int.{ℤ, ltb_ℤ}

-- `unsigned long` is 64 bits wide and `unsigned` 32: `~mask` is taken in 32 bits and then widened.
unfoldable pub align : (v mask : ℕ) → ℕ
align v mask = bit_and ((v + mask) % 2 ^ 64) (2 ^ 32 - 1 - mask)

unfoldable pub min_long : (a b : ℤ) → ℤ
min_long a b = if ltb_ℤ a b then a else b
