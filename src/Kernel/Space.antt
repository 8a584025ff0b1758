-- ===== src/Kernel/Space.antt =====
-- The part of the kernel's state that the loader works on: memory, the globals and the mark of the
-- allocator; and what a run is given that the kernel's image fixes.
use os.Prelude.{ℕ}
use os.Prelude.Int.{ℤ}
use os.Machine.{Cmd, ok, fault, out_of_fuel, halted}
use os.Machine.Memory.{Ptr, Memory, Prog}
use os.Kernel.Alloc
use os.Kernel.Init.{Globals}

pub record Space : Type 0 where
  pub memory : Memory
  pub globals : Globals
  pub execbufp : Ptr

-- The addresses of the literal "TRAILER!!!" and of the array `elfhdrpat`, and the fuel: for the
-- entries of the archive and for the characters of a string.
pub record Config : Type 0 where
  pub trailer : Ptr
  pub elfhdrpat : Ptr
  pub entries : ℕ
  pub chars : ℕ

abbrev pub on_memory : {A : Type 0} → Prog A → Cmd Space A
on_memory prog s = elim (prog s.memory) [
  | ok a m ↦ ok a (record s { memory = m })
  | fault ↦ fault
  | out_of_fuel ↦ out_of_fuel
  | halted m ↦ halted (record s { memory = m })
]

unfoldable pub alloc : (size : ℤ) → Cmd Space Ptr
alloc size s = let r = Alloc.alloc s.globals size s.execbufp in ok r.0 (record s { execbufp = r.1 })

unfoldable pub freeup : (mark : Ptr) → Cmd Space (Unit {0})
freeup mark s = ok tt (record s { execbufp = Alloc.freeup s.globals mark s.execbufp })

unfoldable pub freemark : Cmd Space Ptr
freemark s = let r = Alloc.freemark s.globals s.execbufp in ok r.0 (record s { execbufp = r.1 })
