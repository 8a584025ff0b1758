-- ===== src/Kernel/PtrStack/Load.antt =====
-- kernel/ksys.c, the side HEAD of its unresolved merge: `load`. It takes the first program header
-- for the size of the memory, and copies no segment that the last header describes.
use os.Prelude.{ℕ, zero, suc, ◌+◌, ◌-◌, ◌%◌, ◌^◌, ◌==◌, if◌then◌else◌, not}
use os.Prelude.Int.{pos}
use os.Kernel.Cpio.{cpio_content, find_exe}
use os.Kernel.Elf.{
  e_entry, e_phoff, e_phentsize, e_phnum, p_type, p_offset, p_vaddr, p_filesz, p_memsz, pt_load,
}
use os.Kernel.Init.{Globals}
use os.Kernel.PtrStack.{my_alloc}
use os.Kernel.Space.{Space, Config, on_memory}
use os.LibC.Copy.{memcpy, memset}
use os.Machine.{Cmd, ok, fault, out_of_fuel, halted, pure, ◌>>=◌, ◌>>◌}
use os.Machine.Memory.{Ptr, null, Prog}
use os.Machine.Memory.Words.{load16, load32, load64}

abbrev pub p_paddr : Ptr → Ptr
p_paddr phdr = phdr + 24

abbrev on_globals : {A : Type 0} → Cmd Globals A → Cmd Space A
on_globals c s = elim (c s.globals) [
  | ok a g ↦ ok a (record s { globals = g })
  | fault ↦ fault
  | out_of_fuel ↦ out_of_fuel
  | halted g ↦ halted (record s { globals = g })
]

-- A segment is copied to the block by its address.
copy_segment : (elf mem_block p_header : Ptr) → Prog (Unit {0})
copy_segment elf mem_block p_header = do
  type ← load32 (p_type p_header)
  if not (type == pt_load) then pure tt else do
    vaddr ← load64 (p_vaddr p_header)
    offset ← load64 (p_offset p_header)
    filesz ← load64 (p_filesz p_header)
    memcpy (mem_block + vaddr) (elf + offset) filesz
    pure tt

-- The loop for `i` down to 1; the result is `p_header`.
copy_segments : (elf mem_block : Ptr) → (i : ℕ) → (p_header : Ptr) → Prog Ptr
unfolding copy_segment
copy_segments elf mem_block zero p_header = pure p_header
copy_segments elf mem_block (suc i) p_header = do
  copy_segment elf mem_block p_header
  phentsize ← load16 (e_phentsize elf)
  copy_segments elf mem_block i (p_header + phentsize)

-- The block and `*entry`. With no archive entry the result is -1 as a pointer, and `*entry` is not
-- set.
unfoldable pub load : Config → (name : Ptr) → Cmd Space (Ptr × Ptr)
unfolding copy_segments
load config name = do
  ch ← λ s. on_memory (find_exe config.trailer config.chars config.entries s.globals name) s
  if ch == null then pure (2 ^ 64 - 1, null) else do
    elf ← on_memory (cpio_content ch)
    phoff ← on_memory (load64 (e_phoff elf))
    memsz ← on_memory (load64 (p_memsz (elf + phoff)))
    mem_block ← on_globals (my_alloc memsz)
    on_memory (memset mem_block (pos 0) memsz)
    phnum ← on_memory (load16 (e_phnum elf))
    p_header ← on_memory (copy_segments elf mem_block (phnum - 1) (elf + phoff))
    entry ← on_memory (load64 (e_entry elf))
    paddr ← on_memory (load64 (p_paddr p_header))
    pure (mem_block, (mem_block + entry + 2 ^ 64 - paddr) % 2 ^ 64)
