-- ===== src/LibC/Scan.antt =====
-- libc/string.c: the functions that only read strings.
pub mod Compare
pub mod Length
pub mod Span
use os.Prelude.{differ, true, false, ℕ, zero, suc, ◌-◌, ◌==◌, ◌&&◌, Bool, if◌then◌else◌}
use os.Prelude.Int.{ℤ, pos_part, neg_part, signed, ◌-ℤ◌}
use os.Machine.{out_of_fuel, pure, ◌>>=◌}
use os.Machine.Memory.{Ptr, null, Prog, load8}

-- `char` is signed: the integer that a byte is promoted to.
abbrev pub char_value : ℕ → ℤ
char_value = signed 128

abbrev pub eq_ℤ : ℤ → ℤ → Bool
eq_ℤ a b = (pos_part a == pos_part b) && (neg_part a == neg_part b)

-- `return *s1 - *s2;`
unfoldable pub char_diff : (s1 s2 : Ptr) → Prog ℤ
char_diff s1 s2 = do a ← load8 s1; b ← load8 s2; pure (char_value a -ℤ char_value b)

unfoldable pub strcmp : ℕ → (s1 s2 : Ptr) → Prog ℤ
unfolding char_diff
strcmp zero s1 s2 = λ _. out_of_fuel
strcmp (suc k) s1 s2 = do
  a ← load8 s1
  if a == 0
      then char_diff s1 s2
      else do b ← load8 s2; if a == b then strcmp k (suc s1) (suc s2) else char_diff s1 s2

strlen_loop : ℕ → Ptr → Prog Ptr
strlen_loop zero p = λ _. out_of_fuel
strlen_loop (suc k) p = do c ← load8 p; if c == 0 then pure p else strlen_loop k (suc p)

unfoldable pub strlen : ℕ → Ptr → Prog ℕ
unfolding strlen_loop
strlen k s = do p ← strlen_loop k s; pure (p - s)

-- `c` is the `int` argument; NULL is returned where it does not occur.
unfoldable pub strchr : ℕ → Ptr → ℤ → Prog Ptr
strchr zero p c = λ _. out_of_fuel
strchr (suc k) p c = do
  b ← load8 p
  if b == 0 then pure null else if eq_ℤ (char_value b) c then pure p else strchr k (suc p) c

-- The loops of `strspn` and `strcspn` differ in the answer of `strchr` that keeps them going. Each
-- round gives `strchr` the fuel `f`.
span_loop : Bool → (f k : ℕ) → (s set : Ptr) → Prog Ptr
span_loop while_found f zero s set = λ _. out_of_fuel
span_loop while_found f (suc k) s set = do
  c ← load8 s
  if c == 0 then pure s else do
    p ← strchr f set (char_value c)
    if differ (p == null) while_found then span_loop while_found f k (suc s) set else pure s

unfoldable pub strspn : ℕ → (str accept : Ptr) → Prog ℕ
unfolding span_loop
strspn k str accept = do s ← span_loop true k k str accept; pure (s - str)

unfoldable pub strcspn : ℕ → (str reject : Ptr) → Prog ℕ
unfolding span_loop
strcspn k str reject = do s ← span_loop false k k str reject; pure (s - str)
