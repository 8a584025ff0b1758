-- ===== src/Machine/Memory/Store.antt =====
-- A word that is stored is read back, and nothing else is changed.
use os.Prelude.{
  Bool-cases, ◌==◌, ℕ, zero, suc, ◌+◌, ◌/◌, ◌%◌, ◌^◌, ◌≤◌, ◌<◌, ◌≡◌, inl, inr, some, arith,
}
use os.Machine.{ok}
use os.Machine.Memory.{Ptr, Memory, write}
use os.Machine.Memory.Region.{Mapped, SameOutside}
use os.Machine.Memory.Words.{load64, store64}

-- The memory with the low bytes of `v` from `p` on.
abbrev pub put16 : Memory → Ptr → ℕ → Memory
put16 m p v = write (write m p (v % 2 ^ 8)) (p + 1) (v / 2 ^ 8 % 2 ^ 8)

abbrev pub put32 : Memory → Ptr → ℕ → Memory
put32 m p v = put16 (put16 m p (v % 2 ^ 16)) (p + 2) (v / 2 ^ 16 % 2 ^ 16)

pub put64 : Memory → Ptr → ℕ → Memory
put64 m p v = put32 (put32 m p (v % 2 ^ 32)) (p + 4) (v / 2 ^ 32 % 2 ^ 32)

-- Each byte of the range is mapped.
abbrev pub AllMapped : Memory → Ptr → ℕ → Type 0
AllMapped m p n = (a : Ptr) → p ≤ a → a < p + n → (b : ℕ) × (m a ≡ some b)

pub Mapped_of_all : (m : Memory) (p n : ℕ) → AllMapped m p n → Mapped m p n
Mapped_of_all m p zero h = tt
Mapped_of_all m p (suc n) h = (
  h p (omega arith) (omega arith),
  Mapped_of_all m (suc p) n (λ a l u. h a (omega arith) (omega arith)),
)

AllMapped-write : (m : Memory) (q b : ℕ) (p n : ℕ) → AllMapped m p n → AllMapped (write m q b) p n
AllMapped-write m q b p n h a l u = elim (Bool-cases (a == q)) [
  | inl e ↦ (b, rw e)
  | inr e ↦ let (c, hc) = h a l u in (c, rw e hc)
]

AllMapped-put16 : (m : Memory) (q v p n : ℕ) → AllMapped m p n → AllMapped (put16 m q v) p n
AllMapped-put16 m q v p n h = AllMapped-write _ _ _ p n (AllMapped-write m _ _ p n h)

pub AllMapped-put64 : (m : Memory) (q v p n : ℕ) → AllMapped m p n → AllMapped (put64 m q v) p n
unfolding put64
AllMapped-put64 m q v p n h =
    AllMapped-put16 _ _ _ p n
      (AllMapped-put16 _ _ _ p n (AllMapped-put16 _ _ _ p n (AllMapped-put16 m _ _ p n h)))

pub store64-put64 : (m : Memory) (p v : ℕ) → Mapped m p 8 → store64 p v m ≡ ok tt (put64 m p v)
unfolding store64 put64
store64-put64 m p v
      (
        (b0, h0),
        ((b1, h1), ((b2, h2), ((b3, h3), ((b4, h4), ((b5, h5), ((b6, h6), ((b7, h7), _))))))),
      ) =
    ground arith

pub SameOutside-put64 : (m : Memory) (p v : ℕ) → SameOutside p 8 m (put64 m p v)
unfolding put64
SameOutside-put64 m p v a o = ground arith

pub load64-put64 : (m : Memory) (p v : ℕ) → v < 2 ^ 64 → load64 p (put64 m p v) ≡ ok v (put64 m p v)
unfolding put64 load64
load64-put64 m p v h = ground arith
