-- ===== src/LibC/Scan/Compare.antt =====
-- `strcmp` against the order of its strings.
use os.Prelude.{
  ℕ, zero, suc, ◌<◌, ◌≡◌, ◌↔◌, refl, true, List, [], ◌∷◌, arith, length, ◌==◌, if◌then◌else◌,
}
use os.Prelude.Int.{ℤ, ◌-ℤ◌, is_zero}
use os.Machine.{ok}
use os.Machine.Memory.{Ptr, Memory}
use os.Machine.Memory.Region.{CString}
use os.LibC.Scan.{char_value, char_diff, strcmp}

-- The difference of the first characters in which two strings differ, the NULs included.
pub first_diff : List ℕ → List ℕ → ℤ
first_diff [] [] = char_value 0 -ℤ char_value 0
first_diff [] (b ∷ ys) = char_value 0 -ℤ char_value b
first_diff (a ∷ xs) [] = char_value a -ℤ char_value 0
first_diff (a ∷ xs) (b ∷ ys) = if a == b then first_diff xs ys else char_value a -ℤ char_value b

strcmp-first_diff :
    (k : ℕ) {m : Memory} (s1 s2 : Ptr) (xs ys : List ℕ)
    → length xs < k
    → CString m s1 xs
    → CString m s2 ys
    → strcmp k s1 s2 m ≡ ok (first_diff xs ys) m
unfolding strcmp first_diff char_diff
strcmp-first_diff zero s1 s2 xs ys fuel hx hy = absurd (omega arith)
strcmp-first_diff (suc k) s1 s2 [] [] fuel hx hy = ground arith
strcmp-first_diff (suc k) s1 s2 [] (b ∷ ys) fuel hx (h, l, u, hs) = ground arith
strcmp-first_diff (suc k) s1 s2 (a ∷ xs) [] fuel (h, l, u, hs) hy = ground arith
strcmp-first_diff (suc k) s1 s2 (a ∷ xs) (b ∷ ys) fuel (h, l, u, hs) (h', l', u', hs') =
    ground (arith, strcmp-first_diff k (suc s1) (suc s2) xs ys (omega arith) hs hs')

-- The bytes of a C string: non-zero, and in the range of `char`.
abbrev pub IsText : List ℕ → Type 0
IsText [] = Unit {0}
IsText (b ∷ bs) = (0 < b) × (b < 256) × IsText bs

pub CString-IsText : (m : Memory) (p : Ptr) (bs : List ℕ) → CString m p bs → IsText bs
CString-IsText m p [] h = tt
CString-IsText m p (b ∷ bs) (h, l, u, hs) = (l, u, CString-IsText m (suc p) bs hs)

pub char_value_diff_zero :
    (a b : ℕ) → a < 256 → b < 256 → is_zero (char_value a -ℤ char_value b) ≡ true → a ≡ b
unfolding ◌-ℤ◌
char_value_diff_zero a b l l' h = ground arith

first_diff_self : (xs : List ℕ) → is_zero (first_diff xs xs) ≡ true
unfolding first_diff ◌-ℤ◌
first_diff_self [] = refl
first_diff_self (a ∷ xs) = ground (arith, first_diff_self xs)

eq_of_first_diff :
    (xs ys : List ℕ) → IsText xs → IsText ys → is_zero (first_diff xs ys) ≡ true → xs ≡ ys
unfolding first_diff
eq_of_first_diff [] [] hx hy h = refl
eq_of_first_diff [] (b ∷ ys) hx hy h = ground (arith, char_value_diff_zero 0 b)
eq_of_first_diff (a ∷ xs) [] hx hy h = ground (arith, char_value_diff_zero a 0)
eq_of_first_diff (a ∷ xs) (b ∷ ys) (la, ua, hx) (lb, ub, hy) h =
    ground (arith, char_value_diff_zero a b ua ub, eq_of_first_diff xs ys hx hy)

-- `strcmp` of two C strings returns, with more fuel than the first has bytes, changes nothing, and
-- its result is 0 exactly when the strings are equal.
pub strcmp-eq :
    (k : ℕ) {m : Memory} (s1 s2 : Ptr) (xs ys : List ℕ)
    → length xs < k
    → CString m s1 xs
    → CString m s2 ys
    → (d : ℤ) × (strcmp k s1 s2 m ≡ ok d m) × ((is_zero d ≡ true) ↔ (xs ≡ ys))
strcmp-eq k {m} s1 s2 xs ys fuel hx hy = (
  first_diff xs ys,
  strcmp-first_diff k s1 s2 xs ys fuel hx hy,
  (
    eq_of_first_diff xs ys (CString-IsText m s1 xs hx) (CString-IsText m s2 ys hy),
    λ e. rw (← e) (first_diff_self xs),
  ),
)
