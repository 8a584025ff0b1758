-- ===== src/Machine/Memory/Region.antt =====
-- What stands in a stretch of memory: bytes, a C string, mapped bytes; and what a run leaves alone.
use os.Prelude.{
  ℕ, zero, suc, ◌+◌, ◌≤◌, ◌<◌, ◌≡◌, ◌⊎◌, some, List, [], ◌∷◌, arith, length, ◌∙◌, Bool-cases, ◌==◌,
  inl, inr,
}
use os.Machine.Memory.{Ptr, Memory, write}

-- The bytes of the list stand from `p` on.
abbrev pub Holds : Memory → Ptr → List ℕ → Type 0
Holds m p [] = Unit {0}
Holds m p (b ∷ bs) = (m p ≡ some b) × Holds m (suc p) bs

-- A string of non-zero bytes stands at `p`, its NUL behind it.
abbrev pub CString : Memory → Ptr → List ℕ → Type 0
CString m p [] = m p ≡ some 0
CString m p (b ∷ bs) = (m p ≡ some b) × (0 < b) × (b < 256) × CString m (suc p) bs

-- The `n` bytes from `p` on are mapped.
abbrev pub Mapped : Memory → Ptr → ℕ → Type 0
Mapped m p zero = Unit {0}
Mapped m p (suc n) = ((b : ℕ) × (m p ≡ some b)) × Mapped m (suc p) n

-- `m'` differs from `m` at most in the `n` bytes from `p` on.
abbrev pub SameOutside : Ptr → ℕ → Memory → Memory → Type 0
SameOutside p n m m' = (a : Ptr) → (a < p) ⊎ (p + n ≤ a) → m' a ≡ m a

module _ {m m' : Memory} where
  -- A stretch survives a run that leaves its bytes alone.
  pub Holds-frame :
      (p : Ptr) (bs : List ℕ)
      → ((a : Ptr) → p ≤ a → a < p + length bs → m' a ≡ m a)
      → Holds m p bs
      → Holds m' p bs
  Holds-frame p [] same h = tt
  Holds-frame p (b ∷ bs) same (h, hs) = (
    same p (omega arith) (omega arith) ∙ h,
    Holds-frame (suc p) bs (λ a l u. same a (omega arith) (omega arith)) hs,
  )

  pub CString-frame :
      (p : Ptr) (bs : List ℕ)
      → ((a : Ptr) → p ≤ a → a ≤ p + length bs → m' a ≡ m a)
      → CString m p bs
      → CString m' p bs
  CString-frame p [] same h = same p (omega arith) (omega arith) ∙ h
  CString-frame p (b ∷ bs) same (h, l, u, hs) = (
    same p (omega arith) (omega arith) ∙ h,
    l,
    u,
    CString-frame (suc p) bs (λ a l u. same a (omega arith) (omega arith)) hs,
  )

  pub Mapped-frame :
      (p : Ptr) (n : ℕ)
      → ((a : Ptr) → p ≤ a → a < p + n → m' a ≡ m a)
      → Mapped m p n
      → Mapped m' p n
  Mapped-frame p zero same h = tt
  Mapped-frame p (suc n) same ((b, h), hs) = (
    (b, same p (omega arith) (omega arith) ∙ h),
    Mapped-frame (suc p) n (λ a l u. same a (omega arith) (omega arith)) hs,
  )

-- A write to mapped memory keeps every mapped byte mapped.
pub Mapped-write : (m : Memory) (p q : Ptr) (b n : ℕ) → Mapped m p n → Mapped (write m q b) p n
Mapped-write m p q b zero h = tt
Mapped-write m p q b (suc n) ((c, h), hs) = (here, Mapped-write m (suc p) q b n hs)
  where
    here : (d : ℕ) × (write m q b p ≡ some d)
    here = elim (Bool-cases (p == q)) [ inl e ↦ (b, rw e) | inr e ↦ (c, rw e h) ]
