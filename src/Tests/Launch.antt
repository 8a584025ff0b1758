-- ===== src/Tests/Launch.antt =====
-- The process of the small machine starts the program.
use os.Prelude.{◌≡◌, refl, [], ◌∷◌, true, arith}
use os.Hal.Trap.{syscall_hnd}
use os.Hal.Trap.Exit.{Traps}
use os.Kernel.Alloc.{allocinit}
use os.Kernel.Elf.Segment.{IsSegment}
use os.Kernel.Process.{Kernel}
use os.Kernel.Syscall.{Syscall}
use os.Machine.{ok}
use os.Machine.Memory.Words.{load16, load64}
use os.System.{Nested}
use os.System.Launch.{marked, CanStart}
use os.System.Launch.Trap.{Launched, run_starts}
use os.Tests.Image.{api, config, kernel, procspace, pool-IsLive, space, code_bytes}
use os.Tests.Loader.{program, space-IsArena, program-IsSegment}
use os.Tests.Programs.{header, space-HasArchive, program-IsProgram, header-is_sound}
use os.Tests.System.{console}

kernel-Nested : Nested api kernel procspace []
unfolding allocinit
kernel-Nested = record {
  curp = refl;
  not_null = omega arith;
  links = refl;
  live = pool-IsLive;
  arena = space-IsArena;
  regions = omega arith;
}

kernel-Traps : Traps api config 4 console kernel Syscall.run
unfolding load16
kernel-Traps = record { instr = refl; number = refl }

marked-IsSegment : IsSegment (marked space) 0x101c 0x10 0x105c code_bytes 0x10 8 120 3
unfolding allocinit
marked-IsSegment =
    let v = program-IsSegment in
    record {
      reads_vaddr = v.reads_vaddr;
      reads_memsz = v.reads_memsz;
      reads_offset = v.reads_offset;
      reads_filesz = v.reads_filesz;
      starts = v.starts;
      ends = v.ends;
      no_wrap = v.no_wrap;
      small = v.small;
      fits = v.fits;
      file = v.file;
      length_file = v.length_file;
      arena = record { not_null = omega arith; above = λ ne. omega arith; below = omega arith };
      room = v.room;
      mapped = v.mapped;
      header_apart = v.header_apart;
      file_apart = v.file_apart;
    }

space-CanStart : CanStart config (marked space) 0x3000 program header code_bytes 0x10 8 120 3
unfolding allocinit load64
space-CanStart = record {
  name = 0x3010;
  text = b'a' ∷ [];
  entries = program ∷ [];
  argv0 = refl;
  name_set = omega arith;
  named = (refl, omega arith, omega arith, refl);
  archive =
      (let v = space-HasArchive in
        record {
          archive = v.archive;
          entries = v.entries;
          chars = v.chars;
          trailer = v.trailer;
          pattern = v.pattern;
        });
  program =
      (let v = program-IsProgram in
        record { found = v.found; not_null = v.not_null; entry = v.entry; header = v.header });
  sound = header-is_sound;
  segment = marked-IsSegment;
  room = omega arith;
}

run_starts_example :
    (s' : Kernel api) × (syscall_hnd api config 4 console kernel ≡ ok true s')
    × Launched api kernel s' procspace [] 0x10 code_bytes 0x10 8
run_starts_example =
    run_starts api config 4 console kernel procspace [] kernel-Nested (omega arith) kernel-Traps
      space-CanStart
