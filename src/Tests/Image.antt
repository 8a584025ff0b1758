-- ===== src/Tests/Image.antt =====
-- A small machine: an archive with one program, the kernel's literals, and a process that may start
-- that program.
use os.Prelude.{
  ℕ, ◌-◌, ◌≡◌, refl, List, [], ◌∷◌, ◌++◌, some, none, get_elem?, leb, ltb, if◌then◌else◌, arith,
  replicate, ◌&&◌,
}
use mathlib.Core.List.Perm
use os.Prelude.Int
use os.Machine.Memory.{Ptr, null, Memory}
use os.Hal.Context.{Context}
use os.Kernel.Init.{Globals}
use os.Kernel.Pool.{Slist, Pool}
use os.Kernel.Pool.Api.{PoolApi}
use os.Kernel.Pool.Live.{pool_api, IsLive}
use os.Kernel.Process.{Proc, Kernel}
use os.Kernel.Space.{Space, Config}
use os.Kernel.Cpio.Find.{trailer_name}

-- Free lists as lists.
abbrev pub first_of_list : List Ptr → Ptr
first_of_list [] = null
first_of_list (x ∷ xs) = x

abbrev pub rest_of_list : List Ptr → List Ptr
rest_of_list [] = []
rest_of_list (x ∷ xs) = xs

pub first_of_nil : (h : List Ptr) → h ≡ [] → first_of_list h ≡ null
first_of_nil h e = rw e

pub first_of_cons : (h : List Ptr) {x : Ptr} {xs : List Ptr} → h ≡ x ∷ xs → first_of_list h ≡ x
first_of_cons h e = rw e

pub rest_of_cons : (h : List Ptr) {x : Ptr} {xs : List Ptr} → h ≡ x ∷ xs → rest_of_list h ≡ xs
rest_of_cons h e = rw e

abbrev pub slist : Slist
slist = record {
  Head = List Ptr;
  init = [];
  first = first_of_list;
  remove_head = rest_of_list;
  insert_head = ◌∷◌;
  items = λ h. h;
  items-init = refl;
  first-nil = first_of_nil;
  first-cons = first_of_cons;
  items-remove_head = rest_of_cons;
  items-insert_head = λ p h. refl;
}

-- The bytes from `p` on, over the memory `m`.
abbrev pub place : Ptr → List ℕ → Memory → Memory
place p bs m a =
    if leb p a then elim (get_elem? bs (a - p)) [ none ↦ m a | some b ↦ some b ] else m a

abbrev pub zeros : ℕ → List ℕ
zeros n = replicate n 0

-- A header whose name takes 2 bytes and whose file takes 123, then the name "a".
abbrev pub entry_bytes : List ℕ
entry_bytes = 0xc7 ∷ 0x71 ∷ zeros 18 ++ 2 ∷ 0 ∷ 0 ∷ 0 ∷ 123 ∷ 0 ∷ b'a' ∷ 0 ∷ []

-- An ELF header with its entry at 0x10 and one program header behind it.
abbrev pub elf_bytes : List ℕ
elf_bytes =
    0x7f ∷ b'E' ∷ b'L' ∷ b'F' ∷ 2 ∷ zeros 19
    ++ 0x10 ∷ zeros 7
    ++ 64 ∷ zeros 21
    ++ 56 ∷ 0 ∷ 1 ∷ zeros 7

-- A segment of 3 bytes in the file and 8 in memory, at 0x10.
abbrev pub phdr_bytes : List ℕ
phdr_bytes = 1 ∷ zeros 7 ++ 120 ∷ zeros 7 ++ 0x10 ∷ zeros 15 ++ 3 ∷ zeros 7 ++ 8 ∷ zeros 15

-- `int $0x81` and one byte more.
abbrev pub code_bytes : List ℕ
code_bytes = 0xcd ∷ 0x81 ∷ 0x90 ∷ []

abbrev pub archive_bytes : List ℕ
archive_bytes =
    entry_bytes ++ elf_bytes ++ phdr_bytes ++ code_bytes ++ zeros 27 ++ trailer_name ++ 0 ∷ []

-- Arena at 0x10000, archive at 0x1000, the literals at 0x2000 and 0x2100, and at 0x3000 what the
-- current process owns: the argument vector, its string, a place for the exit code, an instruction.
abbrev pub arena : Memory
arena a = if leb 0x10000 a && ltb a 0x14000 then some 0 else none

abbrev pub memory : Memory
memory = place 0x1000 archive_bytes (
    place 0x2000 (trailer_name ++ 0 ∷ []) (
      place 0x2100 (0x7f ∷ b'E' ∷ b'L' ∷ b'F' ∷ 2 ∷ [])
        (place 0x3000 (0x10 ∷ 0x30 ∷ zeros 14 ++ b'a' ∷ 0 ∷ zeros 30 ++ 0xcd ∷ 0x81 ∷ []) arena)))

abbrev pub globals : Globals
globals = record {
  rootfs_cpio = 0x1000;
  mem = 0x10000;
  memsz = 0x4000;
  ptr_stack = zeros 25;
  countstack = 0;
}

abbrev pub config : Config
config = record { trailer = 0x2000; elfhdrpat = 0x2100; entries = 3; chars = 12 }

abbrev pub space : Space
space = record { memory = memory; globals = globals; execbufp = null }

abbrev pub context : Context
context = record {
  rax = 0;
  rbx = 0x3000;
  rcx = 0x3020;
  rdx = 0;
  rsi = 0;
  rdi = 0;
  rsp = 0x5000;
  rbp = 0x5000;
  rip = 0x3030;
  others = λ r. r;
}

abbrev pub proc : Proc
proc = record {
  prev = null;
  savectx = context;
  freemark = null;
  load = null;
  loadsz = Int.pos 0;
  stack = null;
  stacksz = 0;
  argv = null;
  code = null;
}

abbrev pub procspace : Ptr
procspace = 0x8000

abbrev pub pool : Pool slist
pool = record {
  mem = procspace;
  membsz = 0x100;
  freestart = 0x8100;
  freeend = 0x8800;
  freehead = [];
}

abbrev pub api : PoolApi
api = pool_api slist 8

-- The process in the first block of the pool is current.
abbrev pub kernel : Kernel api
kernel = record {
  space = space;
  procpool = pool;
  procs = λ p. proc;
  curp = procspace;
  ctx = context;
}

pub pool-IsLive : IsLive slist 8 pool (procspace ∷ [])
pool-IsLive = record {
  used = 1;
  start = refl;
  stop = refl;
  bound = omega arith;
  size = omega arith;
  not_null = omega arith;
  account = Perm.refl _;
}
