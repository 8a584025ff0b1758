-- ===== src/Tests/Boot.antt =====
-- `main` with a host that has the archive of the small machine.
use os.Prelude.{◌+◌, ◌-◌, ◌≡◌, refl, [], ◌∷◌, some, none, arith, length}
use os.Prelude.Int.{ℤ, pos, ◌+ℤ◌}
use os.Hal.Main.{Files, Host, entered, main}
use os.Hal.Signals.{ExnState, exn_init}
use os.Hal.Vm.{host_vm_init}
use os.Kernel.Alloc.{allocinit}
use os.Kernel.Cpio.Archive.{IsEntry}
use os.Kernel.Elf.Header.{IsHeader}
use os.Kernel.Elf.Segment.{IsSegment}
use os.Kernel.Exn.{exn_set_hnd}
use os.Kernel.Init.{kernel_init}
use os.Kernel.Process.{Kernel}
use os.Kernel.Space.{Space}
use os.Kernel.Start.{StartFrame}
use os.Machine.{Run, ok, pure}
use os.Machine.Memory.{Memory, null}
use os.Machine.Memory.Words.{load16, load32, load64, store64}
use os.System.Boot.{Argv, FirstRuns}
use os.System.Boot.Main
use os.System.Boot.Main.{Supplies, main_boots}
use os.System.Launch.{CanStart}
use os.Tests.Host.{strcmp, strstr, maps_lines, text_hole, bss_hole}
use os.Tests.Image.{api, config, kernel, memory, archive_bytes, code_bytes, place}
use os.Tests.Loader.{program}
use os.Tests.Programs.{header, header-is_sound}
use os.Tests.Start.{signals, at_start}
use os.Tests.System.{console, fresh, fresh-IsLive}

-- The file is read to 0x1000, and the memory is that from 0x10000 on.
abbrev files : Files
files = record {
  stat = λ path. pure (some (length archive_bytes));
  malloc = λ size. pure 0x1000;
  open_file = λ path. pure (pos 3);
  read_file = λ fd buf size m. ok (pos size) (place buf archive_bytes m);
  close_file = λ fd. pure tt;
  mmap = λ size. pure (some 0x10000);
}

abbrev frame : StartFrame
frame = record { argv = 0x3020; msg = 0x5100; shell = 0x3010; failed = 0x5210 }

abbrev host : Host files api signals
host = record { kernel = record kernel { procpool = fresh; curp = null }; exn = at_start }

abbrev read_memory : Memory
read_memory = place 0x1000 archive_bytes memory

host-Supplies : Supplies files 0x3010 0x1000 0x10000 memory read_memory
host-Supplies = record {
  size = length archive_bytes;
  fd = pos 3;
  found = memory;
  taken = memory;
  opened = memory;
  filled = read_memory;
  closed = read_memory;
  stat = refl;
  malloc = refl;
  rootfs_set = omega arith;
  open_file = refl;
  fd_valid = λ e. ground (arith, e);
  read_file = refl;
  close_file = refl;
  mmap = refl;
  mem_set = omega arith;
}

abbrev stored : Run Memory (Unit {0}) → Memory
stored (ok r m) = m
stored _ = λ a. none

abbrev argv_memory : Memory
argv_memory = stored (store64 0x3028 null (stored (store64 0x3020 0x3010 read_memory)))

frame-Argv : Argv frame read_memory argv_memory
unfolding store64
frame-Argv = record { mid = _; shell = refl; last = refl }

abbrev start_space : Space
start_space = (Main.at_start host.kernel 0x1000 0x10000 argv_memory).space

abbrev exn_of : Run (ExnState signals) ℤ → ExnState signals
exn_of (ok r t) = t
exn_of _ = at_start

abbrev ready : ExnState signals
ready =
    exn_of
      (exn_init signals strcmp strstr text_hole bss_hole start_space.globals maps_lines at_start)

ready_lem :
    exn_init signals strcmp strstr text_hole bss_hole start_space.globals maps_lines at_start
    ≡ ok (pos 0) ready
unfolding exn_init host_vm_init kernel_init exn_set_hnd ◌+ℤ◌
ready_lem = refl

start-IsEntry : IsEntry argv_memory program
unfolding load16 store64
start-IsEntry = record {
  name = (refl, omega arith, omega arith, refl);
  namesize = refl;
  high = refl;
  low = refl;
  namesize_short = omega arith;
  high_short = omega arith;
  low_short = omega arith;
}

start-IsHeader : IsHeader argv_memory 0x101c header
unfolding load16 load32 load64 store64
start-IsHeader = record {
  magic = (refl, (refl, (refl, (refl, (refl, tt)))));
  five = refl;
  bytes = omega arith;
  phoff = refl;
  phnum = refl;
  entry = refl;
  phentsize = refl;
  types = (refl, tt);
  count = refl;
}

start-IsSegment : IsSegment start_space 0x101c 0x10 0x105c code_bytes 0x10 8 120 3
unfolding load64 allocinit kernel_init store64
start-IsSegment = record {
  reads_vaddr = refl;
  reads_memsz = refl;
  reads_offset = refl;
  reads_filesz = refl;
  starts = omega arith;
  ends = omega arith;
  no_wrap = omega arith;
  small = omega arith;
  fits = omega arith;
  file = (refl, (refl, (refl, tt)));
  length_file = refl;
  arena = record { not_null = omega arith; above = λ ne. absurd (ne refl); below = omega arith };
  room = omega arith;
  mapped = (
    (0, refl),
    ((0, refl), ((0, refl), ((0, refl), ((0, refl), ((0, refl), ((0, refl), ((0, refl), tt))))))),
  );
  header_apart = omega arith;
  file_apart = omega arith;
}

start-CanStart : CanStart config start_space 0x3020 program header code_bytes 0x10 8 120 3
unfolding allocinit load64 kernel_init store64
start-CanStart = record {
  name = 0x3010;
  text = b'a' ∷ [];
  entries = program ∷ [];
  argv0 = refl;
  name_set = omega arith;
  named = (refl, omega arith, omega arith, refl);
  archive = record {
    archive = (refl, start-IsEntry, omega arith, refl, ground arith);
    entries = omega arith;
    chars = omega arith;
    trailer = ground arith;
    pattern = (refl, (refl, (refl, (refl, (refl, tt)))));
  };
  program = record {
    found = refl;
    not_null = omega arith;
    entry = start-IsEntry;
    header = start-IsHeader;
  };
  sound = header-is_sound;
  segment = start-IsSegment;
  room = omega arith;
}

path_lem : load64 0x3000 memory ≡ ok 0x3010 memory
unfolding load64
path_lem = refl

main_boots_example :
    (s' : Kernel api) × (main files api signals strcmp strstr text_hole bss_hole maps_lines config
        console 9 9 frame
        (pos 2)
        0x2ff8
        host
      ≡ ok (entered (0x10000 + (0x10 - 0x10))) (record { kernel = s'; exn = ready }))
    × FirstRuns api (Main.at_start host.kernel 0x1000 0x10000 argv_memory) s' 0x3020 code_bytes 8
main_boots_example =
    main_boots files api signals strcmp strstr text_hole bss_hole maps_lines config console 9 9
      frame host 0x1000 0x10000 read_memory argv_memory 2 0x2ff8 0x3010 (pos 0) ready (omega arith)
      path_lem host-Supplies ready_lem refl fresh-IsLive (omega arith) frame-Argv start-CanStart
