-- ===== src/Kernel/PtrStack.antt =====
-- kernel/ksys.c, the side HEAD of its unresolved merge: `my_alloc` and `unload`, an allocator that
-- moves the start of the arena itself and keeps the earlier starts in `ptr_stack`. An access
-- outside the array is a fault.
pub mod Load
pub mod Restore
use os.Prelude.{ℕ, zero, suc, ◌+◌, ◌-◌, some, none, get_elem?, set, length, ltb, if◌then◌else◌}
use os.Machine.{Cmd, ok, fault, pure, ◌>>=◌, ◌>>◌}
use os.Machine.Memory.{Ptr}
use os.Kernel.Init.{Globals}

read_stack : (i : ℕ) → Cmd Globals Ptr
read_stack i g = elim (get_elem? g.ptr_stack i) [ none ↦ fault | some p ↦ ok p g ]

write_stack : (i : ℕ) → Ptr → Cmd Globals (Unit {0})
write_stack i p g =
    if ltb i (length g.ptr_stack)
    then ok tt (record g { ptr_stack = set g.ptr_stack i p })
    else fault

unfoldable pub my_alloc : (size : ℕ) → Cmd Globals Ptr
unfolding read_stack write_stack
my_alloc size g = push g
  where
    push : Cmd Globals Ptr
    push = do
      write_stack g.countstack g.mem
      λ g. ok tt (record g { mem = g.mem + size; countstack = g.countstack + 1 })
      λ g. read_stack (g.countstack - 1) g

pop_stack : (countstack : ℕ) → Cmd Globals (Unit {0})
unfolding read_stack
pop_stack zero = λ _. fault
pop_stack (suc n) = do p ← read_stack n; λ g. ok tt (record g { mem = p; countstack = n })

-- At `countstack` 0 the index would be -1.
unfoldable pub unload : Cmd Globals (Unit {0})
unfolding pop_stack
unload g = pop_stack g.countstack g
