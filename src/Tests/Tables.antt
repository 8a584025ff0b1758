-- ===== src/Tests/Tables.antt =====
-- The pool, the stack of arena starts and the table of handlers.
use mathlib.Core.List.{Mem}
use os.Prelude.{ℕ, ◌+◌, ◌<◌, ◌≡◌, ◌≢◌, none, List, [], ◌∷◌, ◌⊎◌, arith, replicate, true, Bool}
use os.Prelude.Int.{ℤ}
use os.Machine.{ok, Cmd}
use os.Machine.Memory.{null}
use os.Kernel.Exn.{Exndes}
use os.Kernel.Init.{Globals}
use os.Kernel.Pool.{pool_alloc, pool_free}
use os.Kernel.Pool.Live.{IsLive, pool_alloc-IsLive, pool_free-IsLive}
use os.Kernel.PtrStack.{my_alloc, unload}
use os.Kernel.PtrStack.Restore.{unload-my_alloc}
use os.Tests.Image.{slist, pool, procspace, pool-IsLive, globals}

pool_alloc-IsLive_example :
    (◌≡◌ {A = ℕ} 1 8) × (pool_alloc slist pool ≡ (pool, null))
    ⊎ (1 < 8)
      × ((pool_alloc slist pool).1 ≢ null)
      × (¬ Mem (pool_alloc slist pool).1 (procspace ∷ []))
      × IsLive slist 8 (pool_alloc slist pool).0 ((pool_alloc slist pool).1 ∷ procspace ∷ [])
pool_alloc-IsLive_example = pool_alloc-IsLive slist 8 pool (procspace ∷ []) pool-IsLive

pool_free-IsLive_example : IsLive slist 8 (pool_free slist pool procspace) []
pool_free-IsLive_example = pool_free-IsLive slist 8 pool procspace [] [] pool-IsLive

unload-my_alloc_example :
    (g' : Globals) × (my_alloc 0x100 globals ≡ ok 0x10000 g')
    × (g'.mem ≡ 0x10000 + 0x100)
    × (g'.countstack ≡ 0 + 1)
    × (unload g' ≡ ok tt (record globals { ptr_stack = 0x10000 ∷ replicate 24 0 }))
unload-my_alloc_example = unload-my_alloc globals 0x100 (omega arith)

-- Handlers that count their calls.
abbrev count : ℕ → ℤ → ℕ → Cmd ℕ Bool
count h exn arg s = ok true (s + h + arg)

abbrev table : List (Exndes ℕ)
table = replicate 64 (record { hnd = none; arg = 0 })
