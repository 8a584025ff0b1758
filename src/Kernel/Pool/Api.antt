-- ===== src/Kernel/Pool/Api.antt =====
-- What the kernel's process code knows of the pool: it hands out at most `capacity` blocks at a
-- time, none of them NULL and none twice, and takes them back in any order.
use mathlib.Core.List.{Mem}
use os.Prelude.{ℕ, ◌<◌, ◌≤◌, ◌≡◌, ◌≢◌, List, ◌∷◌, ◌++◌, length}
use os.Machine.Memory.{Ptr, null}

pub record PoolApi : Type 1 where
  pub State : Type 0
  pub alloc : State → State × Ptr
  pub free : State → Ptr → State
  pub capacity : ℕ
  -- The blocks that are handed out.
  pub Live : State → List Ptr → Type 0
  pub live-le : (s : State) (live : List Ptr) → Live s live → length live ≤ capacity
  pub alloc-full :
      (s : State) (live : List Ptr) → Live s live → length live ≡ capacity → alloc s ≡ (s, null)
  pub alloc-ok :
      (s : State) (live : List Ptr)
      → Live s live
      → length live < capacity
      → ((alloc s).1 ≢ null) × (¬ Mem (alloc s).1 live) × Live (alloc s).0 ((alloc s).1 ∷ live)
  pub free-ok :
      (s : State) (r : Ptr) (xs ys : List Ptr) → Live s (xs ++ r ∷ ys) → Live (free s r) (xs ++ ys)
