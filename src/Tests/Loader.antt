-- ===== src/Tests/Loader.antt =====
-- The archive of the small machine, and its program.
use os.Prelude.{◌*◌, ◌/◌, ◌%◌, ◌^◌, ◌+◌, ◌≤◌, ◌<◌, ◌≡◌, refl, [], ◌∷◌, ◌⊎◌, arith}
use os.Prelude.Int.{pos}
use os.Machine.{ok}
use os.Machine.Memory.{null}
use os.Machine.Memory.Words.{load16, load64}
use os.Kernel.Align.{align}
use os.Kernel.Align.Mask.{align_page}
use os.Kernel.Alloc.{allocinit, alloc}
use os.Kernel.Alloc.Arena.{IsArena, alloc_lem}
use os.Kernel.Cpio.{find_exe}
use os.Kernel.Cpio.Archive.{Entry, IsEntry}
use os.Kernel.Cpio.Find.{Archive, find_exe-entry}
use os.Kernel.Elf.Segment.{IsSegment}
use os.Tests.Image.{memory, globals, space, code_bytes}

abbrev pub program : Entry
program = record { header = 0x1000; name = b'a' ∷ []; namesize = 2; high = 0; low = 123 }

pub program-IsEntry : IsEntry memory program
unfolding load16
program-IsEntry = record {
  name = (refl, omega arith, omega arith, refl);
  namesize = refl;
  high = refl;
  low = refl;
  namesize_short = omega arith;
  high_short = omega arith;
  low_short = omega arith;
}

pub memory-Archive : Archive memory 12 0x1000 (program ∷ [])
memory-Archive = (refl, program-IsEntry, omega arith, refl, ground arith)

find_exe-entry_example : find_exe 0x2000 12 3 globals 0x3010 memory ≡ ok 0x1000 memory
find_exe-entry_example =
    find_exe-entry memory globals 0x2000 0x3010 12 3 (b'a' ∷ []) (program ∷ []) (omega arith)
      (omega arith) (ground arith) (refl, omega arith, omega arith, refl) memory-Archive

pub space-IsArena : IsArena globals null
space-IsArena = record {
  not_null = omega arith;
  above = λ ne. absurd (ne refl);
  below = omega arith;
}

alloc_lem_example :
    let b = allocinit globals null in
    (0x14000 < b + 0x2000) × (alloc globals (pos 0x2000) null ≡ (null, b))
    ⊎ (b + 0x2000 ≤ 0x14000)
      × (alloc globals (pos 0x2000) null ≡ (b, b + 0x2000))
      × IsArena globals (b + 0x2000)
alloc_lem_example = alloc_lem space-IsArena 0x2000

pub program-IsSegment : IsSegment space 0x101c 0x10 0x105c code_bytes 0x10 8 120 3
unfolding load64 allocinit
program-IsSegment = record {
  reads_vaddr = refl;
  reads_memsz = refl;
  reads_offset = refl;
  reads_filesz = refl;
  starts = omega arith;
  ends = omega arith;
  no_wrap = omega arith;
  small = omega arith;
  fits = omega arith;
  file = (refl, (refl, (refl, tt)));
  length_file = refl;
  arena = space-IsArena;
  room = omega arith;
  mapped = (
    (0, refl),
    ((0, refl), ((0, refl), ((0, refl), ((0, refl), ((0, refl), ((0, refl), ((0, refl), tt))))))),
  );
  header_apart = omega arith;
  file_apart = omega arith;
}

-- The upper half of the size is lost.
align_page_example : align (2 ^ 32 + 1) 0xfff ≡ (2 ^ 32 + 1 + 0xfff) % 2 ^ 32 / 2 ^ 12 * 2 ^ 12
align_page_example = align_page (2 ^ 32 + 1)
