-- ===== src/Kernel/Elf.antt =====
-- kernel/ksys.c: the ELF structures and `load`, the side pr/3 of its unresolved merge, which the
-- callers in the same file are written for.
pub mod Header
pub mod Segment
pub mod Whole
use os.Prelude.{
  ℕ, zero, suc, ◌+◌, ◌-◌, ◌%◌, ◌^◌, ◌==◌, ltb, leb, if◌then◌else◌, not, Option, some, none,
}
pub use os.Prelude.Int.{to_int}
use os.Prelude.Int.{ℤ, pos, is_zero, signed}
use os.Machine.{Cmd, pure, ◌>>=◌, ◌>>◌}
use os.Machine.Memory.{Ptr, null, Prog}
use os.Machine.Memory.Words.{load16, load32, load64}
use os.LibC.Copy.{memset, memcpy, memcmp}
use os.Kernel.Align.{align}
use os.Kernel.Cpio.{cpio_content, find_exe}
use os.Kernel.Space.{Space, Config, on_memory, alloc}

-- Where the fields of `Elf64_Ehdr` that are read stand.
abbrev pub e_entry : Ptr → Ptr
e_entry ehdr = ehdr + 24

abbrev pub e_phoff : Ptr → Ptr
e_phoff ehdr = ehdr + 32

abbrev pub e_phentsize : Ptr → Ptr
e_phentsize ehdr = ehdr + 54

abbrev pub e_phnum : Ptr → Ptr
e_phnum ehdr = ehdr + 56

-- Where the fields of `Elf64_Phdr` that are read stand, and its size.
abbrev pub p_type : Ptr → Ptr
p_type phdr = phdr

abbrev pub p_offset : Ptr → Ptr
p_offset phdr = phdr + 8

abbrev pub p_vaddr : Ptr → Ptr
p_vaddr phdr = phdr + 16

abbrev pub p_filesz : Ptr → Ptr
p_filesz phdr = phdr + 32

abbrev pub p_memsz : Ptr → Ptr
p_memsz phdr = phdr + 40

abbrev pub phdr_size : ℕ
phdr_size = 56

abbrev pub pt_load : ℕ
pt_load = 1

-- `*entry`, `proc->load` and `proc->loadsz`.
pub record Loaded : Type 0 where
  pub entry : Ptr
  pub load : Ptr
  pub loadsz : ℤ

-- The first of `n` program headers that is of type PT_LOAD, or NULL.
unfoldable pub find_load : (n : ℕ) → (phdr : Ptr) → Prog Ptr
find_load zero phdr = pure null
find_load (suc n) phdr = do
  type ← load32 (p_type phdr)
  if type == pt_load then pure phdr else find_load n (phdr + phdr_size)

-- From the program header on: the checks of the entry, the copy and the results. That `alloc`
-- returns NULL is not checked.
unfoldable pub load_segment : (rawelf entry loadhdr : Ptr) → Cmd Space (Option Loaded)
load_segment rawelf entry loadhdr = do
  vaddr ← on_memory (load64 (p_vaddr loadhdr))
  if ltb entry vaddr then pure none else do
    memsz ← on_memory (load64 (p_memsz loadhdr))
    if leb ((vaddr + memsz) % 2 ^ 64) entry then pure none else do
      loadp ← alloc (to_int (align memsz 0xfff))
      on_memory (memset loadp (pos 0) memsz)
      offset ← on_memory (load64 (p_offset loadhdr))
      filesz ← on_memory (load64 (p_filesz loadhdr))
      on_memory (memcpy loadp (rawelf + offset) filesz)
      pure (
          some (record {
            entry = loadp + entry - vaddr;
            load = loadp;
            loadsz = to_int (align memsz 0xfff);
          }))

-- From the ELF header on.
unfoldable pub load_elf : Config → (rawelf : Ptr) → Cmd Space (Option Loaded)
unfolding load_segment
load_elf config rawelf = do
  d ← on_memory (memcmp rawelf config.elfhdrpat 5)
  if not (is_zero d) then pure none else do
    phoff ← on_memory (load64 (e_phoff rawelf))
    if phoff == 0 then pure none else do
      phnum ← on_memory (load16 (e_phnum rawelf))
      if phnum == 0 then pure none else do
        entry ← on_memory (load64 (e_entry rawelf))
        if entry == 0 then pure none else do
          phentsize ← on_memory (load16 (e_phentsize rawelf))
          if not (phentsize == phdr_size) then pure none else do
            loadhdr ← on_memory (find_load phnum (rawelf + phoff))
            if loadhdr == null then pure none else load_segment rawelf entry loadhdr

-- `load`; `none` is the result -1, with nothing written through the pointers.
unfoldable pub load : Config → (name : Ptr) → Cmd Space (Option Loaded)
unfolding load_elf
load config name = do
  ch ← λ s. on_memory (find_exe config.trailer config.chars config.entries s.globals name) s
  if ch == null then pure none else do rawelf ← on_memory (cpio_content ch); load_elf config rawelf
