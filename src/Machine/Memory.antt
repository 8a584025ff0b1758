-- ===== src/Machine/Memory.antt =====
-- Byte-addressed memory. An address is a number that does not wrap; `none` is an unmapped byte, and
-- a byte is its unsigned value.
pub mod Frame
pub mod Region
pub mod Store
pub mod Strings
pub mod Words
use os.Prelude.{ℕ, Option, none, some, ◌==◌, if◌then◌else◌}
use os.Machine.{ok, fault, Cmd}

abbrev pub Ptr : Type 0
Ptr = ℕ

abbrev pub null : Ptr
null = 0

abbrev pub Memory : Type 0
Memory = Ptr → Option ℕ

abbrev pub Prog : Type 0 → Type 0
Prog A = Cmd Memory A

abbrev pub write : Memory → Ptr → ℕ → Memory
write m p b a = if a == p then some b else m a

-- `*p` for a `char *p`
abbrev pub load8 : Ptr → Prog ℕ
load8 p m = elim (m p) [ none ↦ fault | some b ↦ ok b m ]

-- `*p = b` for a `char *p`
abbrev pub store8 : Ptr → ℕ → Prog (Unit {0})
store8 p b m = elim (m p) [ none ↦ fault | some _ ↦ ok tt (write m p b) ]
