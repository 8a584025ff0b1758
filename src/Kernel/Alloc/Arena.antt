-- ===== src/Kernel/Alloc/Arena.antt =====
-- The allocator hands out stretches of the arena one behind the other, and goes back to a mark.
use os.Prelude.{ℕ, ◌+◌, ◌≤◌, ◌<◌, ◌≡◌, ◌≢◌, ◌⊎◌, inl, inr, arith, Bool-cases, ltb, ◌==◌}
use os.Prelude.Int.{pos}
use os.Machine.Memory.{Ptr, null}
use os.Kernel.Init.{Globals}
use os.Kernel.Alloc.{allocinit, alloc}

-- The arena is not at NULL, and the mark, once set, lies in it.
pub record IsArena (g : Globals) (execbufp : Ptr) : Type 0 where
  pub not_null : 0 < g.mem
  pub above : (execbufp ≢ null) → g.mem ≤ execbufp
  pub below : execbufp ≤ g.mem + g.memsz

module _ {g : Globals} {execbufp : Ptr} (v : IsArena g execbufp) where
  open v use {not_null, above, below}

  -- The first use sets the mark to the start of the arena.
  pub allocinit-bounds :
      (allocinit g execbufp ≢ null)
      × (g.mem ≤ allocinit g execbufp)
      × (allocinit g execbufp ≤ g.mem + g.memsz)
  unfolding allocinit
  allocinit-bounds = elim (Bool-cases (execbufp == null)) [
    | inl e ↦ ground arith
    | inr n ↦ let up = above (ground arith) in ground arith
  ]

  -- An allocation of `n` bytes fails, and leaves the mark where it is, exactly where fewer than `n`
  -- are left; else it returns the old mark, which is not NULL, and the new mark is `n` further, in
  -- the arena.
  pub alloc_lem :
      (n : ℕ)
      → let b = allocinit g execbufp in
        (g.mem + g.memsz < b + n) × (alloc g (pos n) execbufp ≡ (null, b))
        ⊎ (b + n ≤ g.mem + g.memsz) × (alloc g (pos n) execbufp ≡ (b, b + n)) × IsArena g (b + n)
  unfolding alloc
  alloc_lem n = elim (Bool-cases (ltb (g.mem + g.memsz) (allocinit g execbufp + n))) [
    | inl full ↦ inl (ground arith, ground (arith, allocinit-bounds))
    | inr room ↦ inr (
      ground arith,
      ground (arith, allocinit-bounds),
      record {
        not_null = not_null;
        above = λ _. omega (arith, allocinit-bounds);
        below = ground arith;
      },
    )
  ]
