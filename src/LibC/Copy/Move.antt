-- ===== src/LibC/Copy/Move.antt =====
-- `memcpy` and `strcpy`: what they leave at the destination and elsewhere.
use os.Prelude.{ℕ, zero, suc, ◌+◌, ◌≤◌, ◌<◌, ◌≡◌, refl, ◌⊎◌, List, [], ◌∷◌, arith, length, ◌∙◌}
use os.Machine.{ok}
use os.Machine.Memory.{Ptr, Memory, write}
use os.Machine.Memory.Region.{
  Holds, CString, Mapped, SameOutside, Holds-frame, CString-frame, Mapped-write,
}
use os.LibC.Copy.{copy_loop, memcpy, strcpy_loop, strcpy}

-- The memory after the bytes are stored one by one from `p` on.
abbrev pub stored : Memory → Ptr → List ℕ → Memory
stored m p [] = m
stored m p (b ∷ bs) = stored (write m p b) (suc p) bs

pub SameOutside-stored :
    (m : Memory) (p : Ptr) (bs : List ℕ) → SameOutside p (length bs) m (stored m p bs)
SameOutside-stored m p [] a h = refl
SameOutside-stored m p (b ∷ bs) a h =
    ground (arith, SameOutside-stored (write m p b) (suc p) bs a (omega arith))

pub Holds-stored : (m : Memory) (p : Ptr) (bs : List ℕ) → Holds (stored m p bs) p bs
Holds-stored m p [] = tt
Holds-stored m p (b ∷ bs) = (
  SameOutside-stored (write m p b) (suc p) bs p (omega arith) ∙ ground arith,
  Holds-stored (write m p b) (suc p) bs,
)

copy_loop-stored :
    (m : Memory) (d s : Ptr) (bs : List ℕ)
    → Holds m s bs
    → Mapped m d (length bs)
    → (d + length bs ≤ s) ⊎ (s + length bs ≤ d)
    → copy_loop d s (length bs) m ≡ ok tt (stored m d bs)
unfolding copy_loop
copy_loop-stored m d s [] h w apart = refl
copy_loop-stored m d s (b ∷ bs) (h, hs) ((c, w), ws) apart = ground (
  arith,
  copy_loop-stored (write m d b) (suc d) (suc s) bs
      (Holds-frame (suc s) bs (λ a l u. ground arith) hs)
      (Mapped-write m (suc d) d b (length bs) ws) (omega arith),
)

pub memcpy-stored :
    (m : Memory) (d s : Ptr) (bs : List ℕ)
    → Holds m s bs
    → Mapped m d (length bs)
    → (d + length bs ≤ s) ⊎ (s + length bs ≤ d)
    → memcpy d s (length bs) m ≡ ok d (stored m d bs)
unfolding memcpy
memcpy-stored m d s bs h w apart = rw (copy_loop-stored m d s bs h w apart) refl

-- `memcpy` of bytes to a mapped stretch that does not meet them returns the destination, leaves the
-- bytes there, and changes nothing else.
pub memcpy_lem :
    {m : Memory} (d s n : ℕ) (bs : List ℕ)
    → n ≡ length bs
    → Holds m s bs
    → Mapped m d n
    → (d + n ≤ s) ⊎ (s + n ≤ d)
    → (m' : Memory) × (memcpy d s n m ≡ ok d m') × Holds m' d bs × SameOutside d n m m'
unfolding memcpy
memcpy_lem {m} d s n bs e h w apart = (
  stored m d bs,
  rw (e, copy_loop-stored m d s bs h (rw (← e) w) (rw (← e) apart)),
  Holds-stored m d bs,
  rw e (SameOutside-stored m d bs),
)

-- The fuel counts the bytes of the source string. Its NUL is not copied.
strcpy_loop-stored :
    (k : ℕ) (m : Memory) (d s : Ptr) (bs : List ℕ)
    → length bs < k
    → CString m s bs
    → Mapped m d (length bs)
    → (d + length bs ≤ s) ⊎ (s + length bs < d)
    → strcpy_loop k d s m ≡ ok tt (stored m d bs)
unfolding strcpy_loop
strcpy_loop-stored zero m d s bs fuel h w apart = absurd (omega arith)
strcpy_loop-stored (suc k) m d s [] fuel h w apart = ground arith
strcpy_loop-stored (suc k) m d s (b ∷ bs) fuel (h, l, u, hs) ((c, w), ws) apart = ground (
  arith,
  strcpy_loop-stored k (write m d b) (suc d) (suc s) bs (omega arith)
      (CString-frame (suc s) bs (λ a l u. ground arith) hs)
      (Mapped-write m (suc d) d b (length bs) ws) (omega arith),
)

-- `strcpy` of a C string to a mapped stretch that does not meet it returns the destination, leaves
-- the bytes of the string there, and changes nothing else: the byte behind them, where a NUL
-- belongs, keeps its value.
pub strcpy_lem :
    (k : ℕ) {m : Memory} (d s : Ptr) (bs : List ℕ)
    → length bs < k
    → CString m s bs
    → Mapped m d (length bs)
    → (d + length bs ≤ s) ⊎ (s + length bs < d)
    → (m' : Memory) × (strcpy k d s m ≡ ok d m')
      × Holds m' d bs
      × SameOutside d (length bs) m m'
      × (m' (d + length bs) ≡ m (d + length bs))
unfolding strcpy
strcpy_lem k {m} d s bs fuel h w apart = (
  stored m d bs,
  rw (strcpy_loop-stored k m d s bs fuel h w apart),
  Holds-stored m d bs,
  SameOutside-stored m d bs,
  SameOutside-stored m d bs (d + length bs) (omega arith),
)
