-- ===== src/Machine/Memory/Words.antt =====
-- Little-endian words in memory. A word is read and written byte by byte; alignment is ignored.
use os.Prelude.{ℕ, ◌+◌, ◌*◌, ◌/◌, ◌%◌, ◌^◌}
use os.Machine.{pure, ◌>>=◌, ◌>>◌}
use os.Machine.Memory.{Ptr, Prog, load8, store8}

unfoldable pub load16 : Ptr → Prog ℕ
load16 p = do lo ← load8 p; hi ← load8 (p + 1); pure (lo + hi * 2 ^ 8)

unfoldable pub load32 : Ptr → Prog ℕ
unfolding load16
load32 p = do lo ← load16 p; hi ← load16 (p + 2); pure (lo + hi * 2 ^ 16)

unfoldable pub load64 : Ptr → Prog ℕ
unfolding load32
load64 p = do lo ← load32 p; hi ← load32 (p + 4); pure (lo + hi * 2 ^ 32)

unfoldable pub store16 : Ptr → ℕ → Prog (Unit {0})
store16 p v = do store8 p (v % 2 ^ 8); store8 (p + 1) (v / 2 ^ 8 % 2 ^ 8)

unfoldable pub store32 : Ptr → ℕ → Prog (Unit {0})
unfolding store16
store32 p v = do store16 p (v % 2 ^ 16); store16 (p + 2) (v / 2 ^ 16 % 2 ^ 16)

unfoldable pub store64 : Ptr → ℕ → Prog (Unit {0})
unfolding store32
store64 p v = do store32 p (v % 2 ^ 32); store32 (p + 4) (v / 2 ^ 32 % 2 ^ 32)
