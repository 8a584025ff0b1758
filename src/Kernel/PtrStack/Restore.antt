-- ===== src/Kernel/PtrStack/Restore.antt =====
-- `unload` undoes `my_alloc`.
use os.Prelude.{ℕ, suc, ◌+◌, ◌-◌, ◌<◌, ◌≤◌, ◌≡◌, refl, length, set, get_elem?-set_self, arith}
use os.Machine.{ok, fault}
use os.Kernel.Init.{Globals}
use os.Kernel.PtrStack.{my_alloc, unload}

module _ (g : Globals) (size : ℕ) (room : g.countstack < length g.ptr_stack) where
  abbrev moved : Globals
  moved = record g {
    mem = g.mem + size;
    ptr_stack = set g.ptr_stack g.countstack g.mem;
    countstack = g.countstack + 1;
  }

  my_alloc-ok : my_alloc size g ≡ ok g.mem moved
  unfolding my_alloc
  my_alloc-ok =
      let e : g.countstack + 1 - 1 ≡ g.countstack = omega arith in
      ground (arith, get_elem?-set_self g.ptr_stack g.countstack g.mem room)

  unload-moved : unload moved ≡ ok tt (record moved { mem = g.mem; countstack = g.countstack })
  unfolding unload
  unload-moved =
      let e : g.countstack + 1 ≡ suc g.countstack = omega arith in
      rw e (ground (arith, get_elem?-set_self g.ptr_stack g.countstack g.mem room))

-- While the array has room, `my_alloc` returns the start of the arena and moves it up by the size,
-- and `unload` after it brings the start and the count back, and leaves only the entry written.
pub unload-my_alloc :
    (g : Globals) (size : ℕ)
    → g.countstack < length g.ptr_stack
    → (g' : Globals) × (my_alloc size g ≡ ok g.mem g')
      × (g'.mem ≡ g.mem + size)
      × (g'.countstack ≡ g.countstack + 1)
      × (unload g' ≡ ok tt (record g { ptr_stack = set g.ptr_stack g.countstack g.mem }))
unload-my_alloc g size room =
    (moved g size room, my_alloc-ok g size room, refl, refl, unload-moved g size room)

-- Without room `my_alloc` writes outside the array.
pub my_alloc-full :
    (g : Globals) (size : ℕ) → length g.ptr_stack ≤ g.countstack → my_alloc size g ≡ fault
unfolding my_alloc
my_alloc-full g size full = ground arith
