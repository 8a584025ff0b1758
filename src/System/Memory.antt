-- ===== src/System/Memory.antt =====
-- What the loader and the stack of a new process take of the arena.
use os.Prelude.{ℕ, ◌+◌, ◌≡◌, ◌≢◌, inl, inr, some, Option, arith}
use os.Prelude.Int.{pos, pos_part}
use os.Machine.{ok}
use os.Machine.Memory.{Ptr, null}
use os.Kernel.Alloc.{allocinit}
use os.Kernel.Alloc.Arena.{IsArena, alloc_lem}
use os.Kernel.Elf.{Loaded, load}
use os.Kernel.Space
use os.Kernel.Space.{Space, Config}

-- An allocation that is not refused returns the mark and moves it.
pub record Took (s s' : Space) (p : Ptr) (n : ℕ) : Type 0 where
  pub globals : s'.globals ≡ s.globals
  pub start : p ≡ allocinit s.globals s.execbufp
  pub moved : s'.execbufp ≡ p + n
  pub arena : IsArena s'.globals s'.execbufp

takes :
    {s s' : Space} {p : Ptr} {n : ℕ}
    → p ≡ allocinit s.globals s.execbufp
    → s'.globals ≡ s.globals
    → s'.execbufp ≡ allocinit s.globals s.execbufp + n
    → IsArena s.globals (allocinit s.globals s.execbufp + n)
    → Took s s' p n
takes start globals moved v = record {
  globals = globals;
  start = start;
  moved = rw start moved;
  arena = rw (globals, moved) v;
}

pub alloc-Took :
    (s s' : Space) (n : ℕ) (p : Ptr)
    → IsArena s.globals s.execbufp
    → p ≢ null
    → Space.alloc (pos n) s ≡ ok p s'
    → Took s s' p n
unfolding Space.alloc
alloc-Took s s' n p v ne e = elim (alloc_lem v n) [
  | inl (full, r) ↦ ground arith
  | inr (fits, r, v') ↦ takes (ground arith) (ground arith) (ground arith) v'
]

-- A loaded program starts at the mark, which is moved behind it.
pub load-Took :
    (config : Config) (name : Ptr) (s s' : Space) (l : Loaded)
    → IsArena s.globals s.execbufp
    → l.load ≢ null
    → l.loadsz ≡ pos (pos_part l.loadsz)
    → load config name s ≡ ok (some l) s'
    → Took s s' l.load (pos_part l.loadsz)
unfolding load Space.alloc
load-Took config name s s' l v ne sz e = elim (alloc_lem v (pos_part l.loadsz)) [
  | inl (full, r) ↦ ground arith
  | inr (fits, r, v') ↦ takes (ground arith) (ground arith) (ground arith) v'
]

-- The loader leaves the globals alone.
pub load-globals :
    (config : Config) (name : Ptr) (s s' : Space) (l : Option Loaded)
    → load config name s ≡ ok l s'
    → s'.globals ≡ s.globals
unfolding load Space.alloc
load-globals config name s s' l e = ground arith
