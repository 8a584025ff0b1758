-- ===== src/LibC/Copy/Fill.antt =====
-- `memset` and `memcmp`.
use os.Prelude.{
  ◌+◌, ◌^◌, ◌<◌, if◌then◌else◌, ℕ, zero, suc, ◌<◌, ◌≡◌, ◌↔◌, refl, List, [], ◌∷◌, arith, length,
  ◌==◌, replicate, length-replicate, true,
}
use os.Prelude.Int.{ℤ, ◌-ℤ◌, is_zero, pos}
use os.Machine.{ok}
use os.Machine.Memory.{Ptr, Memory, write}
use os.Machine.Memory.Region.{Holds, Mapped, SameOutside, Mapped-write}
use os.LibC.Scan.{char_diff, char_value}
use os.LibC.Scan.Compare.{char_value_diff_zero}
use os.LibC.Copy.{to_byte, set_loop, memset, memcmp, memcmp_loop}
use os.LibC.Copy.Move.{stored, SameOutside-stored, Holds-stored}

set_loop-stored :
    (n : ℕ) (m : Memory) (p : Ptr) (c : ℤ)
    → Mapped m p n
    → set_loop p c n m ≡ ok tt (stored m p (replicate n (to_byte c)))
unfolding set_loop
set_loop-stored zero m p c w = refl
set_loop-stored (suc n) m p c ((b, w), ws) = ground (
  arith,
  set_loop-stored n (write m p (to_byte c)) (suc p) c (Mapped-write m (suc p) p (to_byte c) n ws),
)

-- `memset` of a mapped stretch returns its start, leaves the converted byte in each of its places,
-- and changes nothing else.
pub memset_lem :
    {m : Memory} (s : Ptr) (c : ℤ) (n : ℕ)
    → Mapped m s n
    → (m' : Memory) × (memset s c n m ≡ ok s m')
      × Holds m' s (replicate n (to_byte c))
      × SameOutside s n m m'
unfolding memset
memset_lem {m} s c n w = (
  stored m s (replicate n (to_byte c)),
  rw (set_loop-stored n m s c w),
  Holds-stored m s (replicate n (to_byte c)),
  λ a h.
      SameOutside-stored m s (replicate n (to_byte c)) a
        (omega (arith, length-replicate n (to_byte c))),
)

abbrev pub AreBytes : List ℕ → Type 0
AreBytes [] = Unit {0}
AreBytes (b ∷ bs) = (b < 256) × AreBytes bs

-- The difference of the first bytes, as characters, in which two lists of one length differ.
bytes_diff : List ℕ → List ℕ → ℤ
bytes_diff [] ys = pos 0
bytes_diff (a ∷ xs) [] = pos 0
bytes_diff (a ∷ xs) (b ∷ ys) = if a == b then bytes_diff xs ys else char_value a -ℤ char_value b

memcmp_loop-bytes_diff :
    (m : Memory) (s1 s2 : Ptr) (xs ys : List ℕ) (i : ℕ)
    → length xs ≡ length ys
    → i + length xs < 2 ^ 31
    → Holds m s1 xs
    → Holds m s2 ys
    → memcmp_loop s1 s2 (length xs) i m ≡ ok (bytes_diff xs ys) m
unfolding memcmp_loop bytes_diff char_diff
memcmp_loop-bytes_diff m s1 s2 [] ys i e small hx hy = refl
memcmp_loop-bytes_diff m s1 s2 (a ∷ xs) [] i e small hx hy = absurd (omega arith)
memcmp_loop-bytes_diff m s1 s2 (a ∷ xs) (b ∷ ys) i e small (hx, hxs) (hy, hys) = ground (
  arith,
  memcmp_loop-bytes_diff m (suc s1) (suc s2) xs ys (suc i) (omega arith) (omega arith) hxs hys,
)

bytes_diff_self : (xs : List ℕ) → is_zero (bytes_diff xs xs) ≡ true
unfolding bytes_diff
bytes_diff_self [] = refl
bytes_diff_self (a ∷ xs) = ground (arith, bytes_diff_self xs)

eq_of_bytes_diff :
    (xs ys : List ℕ)
    → length xs ≡ length ys
    → AreBytes xs
    → AreBytes ys
    → is_zero (bytes_diff xs ys) ≡ true
    → xs ≡ ys
unfolding bytes_diff
eq_of_bytes_diff [] [] e bx by h = refl
eq_of_bytes_diff [] (b ∷ ys) e bx by h = absurd (omega arith)
eq_of_bytes_diff (a ∷ xs) [] e bx by h = absurd (omega arith)
eq_of_bytes_diff (a ∷ xs) (b ∷ ys) e (bx, bxs) (by, bys) h =
    ground (arith, char_value_diff_zero a b bx by, eq_of_bytes_diff xs ys (omega arith) bxs bys)

-- `memcmp` of two stretches of as many bytes, fewer than 2^31, returns, changes nothing, and its
-- result is 0 exactly when they hold the same bytes.
pub memcmp-eq :
    {m : Memory} (s1 s2 : Ptr) (xs ys : List ℕ)
    → length xs ≡ length ys
    → length xs < 2 ^ 31
    → AreBytes xs
    → AreBytes ys
    → Holds m s1 xs
    → Holds m s2 ys
    → (d : ℤ) × (memcmp s1 s2 (length xs) m ≡ ok d m) × ((is_zero d ≡ true) ↔ (xs ≡ ys))
unfolding memcmp
memcmp-eq {m} s1 s2 xs ys e small bx by hx hy = (
  bytes_diff xs ys,
  memcmp_loop-bytes_diff m s1 s2 xs ys 0 e (omega arith) hx hy,
  (eq_of_bytes_diff xs ys e bx by, λ same. rw (← same) (bytes_diff_self xs)),
)
