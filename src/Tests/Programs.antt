-- ===== src/Tests/Programs.antt =====
-- `load` of the example's program, and of one that has no program header.
use os.Prelude.{◌+◌, ◌-◌, ◌<◌, ◌≡◌, refl, some, none, true, false, [], ◌∷◌, arith, replicate}
use os.Prelude.Int.{pos}
use os.Kernel.Alloc.{allocinit}
use os.Kernel.Cpio.Archive.{IsEntry}
use os.Kernel.Elf.{load}
use os.Kernel.Elf.Header.{Header, IsHeader, is_sound}
use os.Kernel.Elf.Segment.{pages}
use os.Kernel.Elf.Whole.{HasArchive, IsProgram, unsound, load_lem, load_refuses}
use os.Kernel.Space.{Space}
use os.Machine.{ok}
use os.Machine.Memory.{Memory}
use os.Machine.Memory.Region.{Holds, SameOutside}
use os.Machine.Memory.Words.{load16, load32, load64}
use os.Tests.Image.{memory, config, space, code_bytes, place}
use os.Tests.Loader.{program, program-IsEntry, memory-Archive, program-IsSegment}

abbrev pub header : Header
header = record {
  magic = 0x7f ∷ b'E' ∷ b'L' ∷ b'F' ∷ 2 ∷ [];
  phoff = 64;
  phnum = 1;
  entry = 0x10;
  phentsize = 56;
  types = 1 ∷ [];
}

program-IsHeader : IsHeader memory 0x101c header
unfolding load16 load32 load64
program-IsHeader = record {
  magic = (refl, (refl, (refl, (refl, (refl, tt)))));
  five = refl;
  bytes = omega arith;
  phoff = refl;
  phnum = refl;
  entry = refl;
  phentsize = refl;
  types = (refl, tt);
  count = refl;
}

pub space-HasArchive : HasArchive config space (program ∷ [])
space-HasArchive = record {
  archive = memory-Archive;
  entries = omega arith;
  chars = omega arith;
  trailer = ground arith;
  pattern = (refl, (refl, (refl, (refl, (refl, tt)))));
}

pub program-IsProgram : IsProgram space (program ∷ []) (b'a' ∷ []) program header
program-IsProgram = record {
  found = refl;
  not_null = omega arith;
  entry = program-IsEntry;
  header = program-IsHeader;
}

pub header-is_sound : is_sound 0x101c header ≡ true
unfolding is_sound
header-is_sound = refl

load_lem_example :
    let b = allocinit space.globals space.execbufp in
    (m : Memory) × (load config 0x3010 space
      ≡ ok
          (some (record { entry = b + (0x10 - 0x10); load = b; loadsz = pos (pages 8) }))
          (record space { memory = m; execbufp = b + pages 8 }))
    × Holds m b code_bytes
    × Holds m (b + 3) (replicate (8 - 3) 0)
    × SameOutside b 8 memory m
    × (0x10 - 0x10 < 8)
load_lem_example =
    load_lem config space (program ∷ []) space-HasArchive 0x3010 (b'a' ∷ [])
      (refl, omega arith, omega arith, refl) program header code_bytes 0x10 8 120 3
      program-IsProgram header-is_sound program-IsSegment

-- The number of its program headers is 0.
abbrev bad_space : Space
bad_space = record space { memory = place (0x101c + 56) (0 ∷ 0 ∷ []) memory }

abbrev bad_header : Header
bad_header = record header { phnum = 0; types = [] }

bad-IsEntry : IsEntry bad_space.memory program
unfolding load16
bad-IsEntry = record {
  name = (refl, omega arith, omega arith, refl);
  namesize = refl;
  high = refl;
  low = refl;
  namesize_short = omega arith;
  high_short = omega arith;
  low_short = omega arith;
}

bad-HasArchive : HasArchive config bad_space (program ∷ [])
bad-HasArchive = record {
  archive = (refl, bad-IsEntry, omega arith, refl, ground arith);
  entries = omega arith;
  chars = omega arith;
  trailer = ground arith;
  pattern = (refl, (refl, (refl, (refl, (refl, tt)))));
}

bad-IsHeader : IsHeader bad_space.memory 0x101c bad_header
unfolding load16 load32 load64
bad-IsHeader = record {
  magic = (refl, (refl, (refl, (refl, (refl, tt)))));
  five = refl;
  bytes = omega arith;
  phoff = refl;
  phnum = refl;
  entry = refl;
  phentsize = refl;
  types = tt;
  count = refl;
}

bad-unsound : is_sound 0x101c bad_header ≡ false
unfolding is_sound
bad-unsound = refl

load_refuses_example : load config 0x3010 bad_space ≡ ok none bad_space
load_refuses_example =
    load_refuses config bad_space (program ∷ []) bad-HasArchive 0x3010 (b'a' ∷ [])
      (refl, omega arith, omega arith, refl)
      (unsound program bad_header
        (record {
          found = refl;
          not_null = omega arith;
          entry = bad-IsEntry;
          header = bad-IsHeader;
        })
        bad-unsound)
