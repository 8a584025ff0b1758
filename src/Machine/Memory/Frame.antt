-- ===== src/Machine/Memory/Frame.antt =====
-- Words and stretches under writes elsewhere, and parts of stretches.
use os.Prelude.{ℕ, zero, suc, ◌+◌, ◌-◌, ◌≤◌, ◌<◌, ◌≡◌, List, [], ◌∷◌, arith, length, replicate}
use os.Machine.{ok}
use os.Machine.Memory.{Ptr, Memory}
use os.Machine.Memory.Region.{Holds, Mapped}
use os.Machine.Memory.Words.{load64}

module _ (m m' : Memory) where
  -- `m'` agrees with `m` in the `n` bytes from `p` on.
  abbrev pub Agree : Ptr → ℕ → Type 0
  Agree p n = (a : Ptr) → p ≤ a → a < p + n → m' a ≡ m a

  pub load64-frame : (p v : ℕ) → Agree p 8 → load64 p m ≡ ok v m → load64 p m' ≡ ok v m'
  unfolding load64
  load64-frame p v same h = ground (
    arith,
    same p (omega arith) (omega arith),
    same (p + 1) (omega arith) (omega arith),
    same (p + 2) (omega arith) (omega arith),
    same (p + 2 + 1) (omega arith) (omega arith),
    same (p + 4) (omega arith) (omega arith),
    same (p + 4 + 1) (omega arith) (omega arith),
    same (p + 4 + 2) (omega arith) (omega arith),
    same (p + 4 + 2 + 1) (omega arith) (omega arith),
  )

module _ (m : Memory) where
  pub Holds-Mapped : (p : Ptr) (bs : List ℕ) (n : ℕ) → n ≤ length bs → Holds m p bs → Mapped m p n
  Holds-Mapped p bs zero le h = tt
  Holds-Mapped p [] (suc n) le h = absurd (omega arith)
  Holds-Mapped p (b ∷ bs) (suc n) le (h, hs) = ((b, h), Holds-Mapped (suc p) bs n (omega arith) hs)

  -- What stands behind the first `n` of equal bytes.
  pub Holds-replicate_rest :
      (p : Ptr) (n k b : ℕ)
      → n ≤ k
      → Holds m p (replicate k b)
      → Holds m (p + n) (replicate (k - n) b)
  Holds-replicate_rest p zero k b le h =
      let e : p + 0 ≡ p = omega arith in let e' : k - 0 ≡ k = omega arith in rw (e, e') h
  Holds-replicate_rest p (suc n) zero b le h = absurd (omega arith)
  Holds-replicate_rest p (suc n) (suc k) b le (h, hs) =
      let e : p + suc n ≡ suc p + n = omega arith in
      let e' : suc k - suc n ≡ k - n = omega arith in
      rw (e, e') (Holds-replicate_rest (suc p) n k b (omega arith) hs)
