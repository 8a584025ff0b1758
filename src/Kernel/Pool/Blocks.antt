-- ===== src/Kernel/Pool/Blocks.antt =====
-- The blocks of a stretch of memory: as many as said, all different and none at NULL.
use mathlib.Core.List.{Mem, Nodup, mem-cons, not-mem-nil, Nodup-cons, Nodup-nil}
use mathlib.Core.List
use mathlib.Core.Logic.Or
use native.Mathlib.Bridge.{le_prop, from_ℕ}
use os.Prelude.{ℕ, zero, suc, ◌+◌, ◌*◌, ◌≤◌, ◌<◌, ◌≡◌, refl, ap, List, [], ◌∷◌, length, arith}
use os.Machine.Memory.{Ptr}

-- The first `n` blocks of size `size` from `mem` on, the last one first.
abbrev pub blocks : (mem : Ptr) (size n : ℕ) → List Ptr
blocks mem size zero = []
blocks mem size (suc n) = (mem + n * size) ∷ blocks mem size n

pub length-blocks : (mem : Ptr) (size n : ℕ) → length (blocks mem size n) ≡ n
length-blocks mem size zero = refl
length-blocks mem size (suc n) = ap suc (length-blocks mem size n)

-- The library's length counts alike.
pub from_ℕ-length {ℓ} : {A : Type ℓ} (xs : List A) → from_ℕ (List.length xs) ≡ length xs
from_ℕ-length [] = refl
from_ℕ-length (x ∷ xs) = ap suc (from_ℕ-length xs)

module _ (mem : Ptr) (size : ℕ) where
  pub mem-blocks-ge : {r : Ptr} (n : ℕ) → Mem r (blocks mem size n) → mem ≤ r
  mem-blocks-ge zero h = absurd (not-mem-nil h)
  mem-blocks-ge (suc n) h =
      Or.elim le_prop (mem-cons.0 h) (λ e. rw e (omega arith)) (mem-blocks-ge n)

  pub mem-blocks-lt : {r : Ptr} (n : ℕ) → Mem r (blocks mem size n) → r + size ≤ mem + n * size
  mem-blocks-lt zero h = absurd (not-mem-nil h)
  mem-blocks-lt (suc n) h =
      Or.elim le_prop (mem-cons.0 h) (λ e. rw e (grind arith))
        (λ i. grind (arith, mem-blocks-lt n i))

  pub Nodup-blocks : (n : ℕ) → 0 < size → Nodup (blocks mem size n)
  Nodup-blocks zero h = Nodup-nil
  Nodup-blocks (suc n) h =
      Nodup-cons.1 (λ i. absurd (omega (arith, mem-blocks-lt n i)), Nodup-blocks n h)
