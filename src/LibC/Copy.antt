-- ===== src/LibC/Copy.antt =====
-- libc/string.c: the functions that write memory, and `memcmp`.
pub mod Move
pub mod Fill
use os.Prelude.{ℕ, zero, suc, ◌-◌, ◌%◌, ◌^◌, ◌==◌, leb, not, if◌then◌else◌}
use os.Prelude.Int.{ℤ, pos, negsuc}
use os.Machine.{fault, out_of_fuel, pure, ◌>>=◌, ◌>>◌}
use os.Machine.Memory.{Ptr, Prog, load8, store8}
use os.LibC.Scan.{char_diff}

-- The byte that an `int` becomes when it is stored in a `char`.
abbrev pub to_byte : ℤ → ℕ
to_byte (pos n) = n % 256
to_byte (negsuc n) = 255 - n % 256

set_loop : (p : Ptr) (c : ℤ) (n : ℕ) → Prog (Unit {0})
set_loop p c zero = pure tt
set_loop p c (suc n) = do store8 p (to_byte c); set_loop (suc p) c n

unfoldable pub memset : (s : Ptr) (c : ℤ) (n : ℕ) → Prog Ptr
unfolding set_loop
memset s c n = do set_loop s c n; pure s

copy_loop : (d s : Ptr) (n : ℕ) → Prog (Unit {0})
copy_loop d s zero = pure tt
copy_loop d s (suc n) = do b ← load8 s; store8 d b; copy_loop (suc d) (suc s) n

unfoldable pub memcpy : (dest src : Ptr) (n : ℕ) → Prog Ptr
unfolding copy_loop
memcpy dest src n = do copy_loop dest src n; pure dest

-- The loop of `memcmp` from `i` on, with `n` bytes left. The step of its `int` counter past the
-- greatest `int` is undefined, a fault.
memcmp_loop : (s1 s2 : Ptr) (n i : ℕ) → Prog ℤ
memcmp_loop s1 s2 zero i = pure (pos 0)
memcmp_loop s1 s2 (suc n) i = do
  a ← load8 s1
  b ← load8 s2
  if not (a == b)
      then char_diff s1 s2
      else if leb (2 ^ 31 - 1) i
      then (λ _. fault)
      else memcmp_loop (suc s1) (suc s2) n (suc i)

unfoldable pub memcmp : (s1 s2 : Ptr) (n : ℕ) → Prog ℤ
unfolding memcmp_loop
memcmp s1 s2 n = memcmp_loop s1 s2 n 0

-- The loop ends before the NUL of `src` is copied.
strcpy_loop : ℕ → (dest src : Ptr) → Prog (Unit {0})
strcpy_loop zero dest src = λ _. out_of_fuel
strcpy_loop (suc k) dest src = do
  c ← load8 src
  if c == 0 then pure tt else do store8 dest c; strcpy_loop k (suc dest) (suc src)

unfoldable pub strcpy : ℕ → (dest src : Ptr) → Prog Ptr
unfolding strcpy_loop
strcpy k dest src = do strcpy_loop k dest src; pure dest
