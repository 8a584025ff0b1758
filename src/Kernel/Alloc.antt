-- ===== src/Kernel/Alloc.antt =====
-- kernel/ksys.c: the allocator of process memory, a mark that moves through the arena. The static
-- `execbufp` is passed in and returned.
pub mod Arena
use os.Prelude.{ℕ, ◌+◌, ◌==◌, if◌then◌else◌}
use os.Prelude.Int.{ℤ, pos, pos_part, sub_ℕ, ltb_ℤ, ◌+ℤ◌}
use os.Machine.Memory.{Ptr, null}
use os.Kernel.Init.{Globals}

unfoldable pub allocinit : Globals → (execbufp : Ptr) → Ptr
allocinit g execbufp = if execbufp == null then g.mem else execbufp

-- The result and the new `execbufp`. The pointer difference and `int size` are signed.
unfoldable pub alloc : Globals → (size : ℤ) → (execbufp : Ptr) → Ptr × Ptr
unfolding ◌+ℤ◌
alloc g size execbufp =
    let curexecbuf = allocinit g execbufp in
    if ltb_ℤ (sub_ℕ (g.mem + g.memsz) curexecbuf) size
    then (null, curexecbuf)
    else (curexecbuf, pos_part (pos curexecbuf +ℤ size))

unfoldable pub freeup : Globals → (mark execbufp : Ptr) → Ptr
freeup g mark execbufp = mark

unfoldable pub freemark : Globals → (execbufp : Ptr) → Ptr × Ptr
unfolding allocinit
freemark g execbufp = let b = allocinit g execbufp in (b, b)
