-- ===== src/LibC/Scan/Span.antt =====
-- `strchr`, `strspn` and `strcspn` against prefixes of lists.
use os.Prelude.{
  differ, ℕ, zero, suc, ◌+◌, ◌<◌, ◌≡◌, refl, List, [], ◌∷◌, arith, length, ◌==◌, true, false, Bool,
  ◌||◌, if◌then◌else◌, not,
}
use os.Machine.{ok}
use os.Machine.Memory.{Ptr, Memory, null}
use os.Machine.Memory.Region.{CString}
use os.LibC.Scan.{char_value, eq_ℤ, strchr, span_loop, strspn, strcspn}

abbrev pub contains : List ℕ → ℕ → Bool
contains [] b = false
contains (a ∷ set) b = (a == b) || contains set b

-- Where `strchr` finds `c` in a string at `p`: NULL, or the first place.
abbrev pub find_from : Ptr → List ℕ → ℕ → Ptr
find_from p [] c = null
find_from p (b ∷ bs) c = if b == c then p else find_from (suc p) bs c

eq_ℤ-char_value : (a b : ℕ) → a < 256 → b < 256 → eq_ℤ (char_value a) (char_value b) ≡ (a == b)
eq_ℤ-char_value a b ha hb = ground arith

-- `strchr` of a C string and a character of it other than NUL returns NULL where the string lacks
-- it, and else its first place.
pub strchr-find_from :
    (k : ℕ) (m : Memory) (p : Ptr) (bs : List ℕ) (c : ℕ)
    → length bs < k
    → c < 256
    → CString m p bs
    → strchr k p (char_value c) m ≡ ok (find_from p bs c) m
unfolding strchr
strchr-find_from zero m p bs c fuel hc h = absurd (omega arith)
strchr-find_from (suc k) m p [] c fuel hc h = ground arith
strchr-find_from (suc k) m p (b ∷ bs) c fuel hc (h, l, u, hs) =
    ground (arith, eq_ℤ-char_value b c, strchr-find_from k m (suc p) bs c (omega arith) hc hs)

find_from-null :
    (p : Ptr) (bs : List ℕ) (c : ℕ) → 0 < p → (find_from p bs c == null) ≡ not (contains bs c)
find_from-null p [] c h = refl
find_from-null p (b ∷ bs) c h = ground (arith, find_from-null (suc p) bs c (omega arith))

-- The number of leading bytes that are in the set, or that are not.
abbrev pub span : Bool → List ℕ → List ℕ → ℕ
span keep set [] = 0
span keep set (b ∷ bs) = if differ (not (contains set b)) keep then suc (span keep set bs) else 0

module _ (keep : Bool) (f : ℕ) (m : Memory) (t : Ptr) (set : List ℕ) (not_null : 0 < t)
    (inner : length set < f) (ht : CString m t set) where
  span_loop-span :
      (k : ℕ) (s : Ptr) (bs : List ℕ)
      → length bs < k
      → CString m s bs
      → span_loop keep f k s t m ≡ ok (s + span keep set bs) m
  unfolding span_loop
  span_loop-span zero s bs fuel h = absurd (omega arith)
  span_loop-span (suc k) s [] fuel h = ground arith
  span_loop-span (suc k) s (b ∷ bs) fuel (h, l, u, hs) = ground (
    arith,
    strchr-find_from f m t set b inner u ht,
    find_from-null t set b not_null,
    span_loop-span k (suc s) bs (omega arith) hs,
  )

module _ (k : ℕ) {m : Memory} (s t : Ptr) (bs set : List ℕ) (not_null : 0 < t)
    (fuel : length bs < k) (inner : length set < k) (h : CString m s bs)
    (ht : CString m t set) where
  -- `strspn` of two C strings, the set not at NULL, returns the length of the longest prefix of the
  -- first that holds only bytes of the second, and changes nothing.
  pub strspn-span : strspn k s t m ≡ ok (span true set bs) m
  unfolding strspn
  strspn-span = ground (arith, span_loop-span true k m t set not_null inner ht k s bs fuel h)

  -- `strcspn` of two C strings, the set not at NULL, returns the length of the longest prefix of
  -- the first that holds no byte of the second, and changes nothing.
  pub strcspn-span : strcspn k s t m ≡ ok (span false set bs) m
  unfolding strcspn
  strcspn-span = ground (arith, span_loop-span false k m t set not_null inner ht k s bs fuel h)
