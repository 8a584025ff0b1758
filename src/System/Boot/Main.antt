-- ===== src/System/Boot/Main.antt =====
-- `main` of hosthal/init.c, up to the entry of the first process.
use os.Prelude.{
  ℕ, ◌+◌, ◌-◌, ◌<◌, ◌≡◌, ◌≢◌, Bool, List, [], arith, some, true, false, Bool-cases, inl, inr,
}
use os.Prelude.Int.{ℤ, pos, negsuc, is_zero, ◌-ℤ◌, eq_of_parts, -ℤ_parts}
use os.Hal.Main.{Files, Host, entered, main, boot, read_rootfs, memsz}
use os.Hal.Signals.{Signals, ExnState, exn_init}
use os.Hal.Vm.{Hole, Maps}
use os.Kernel.Alloc.{allocinit}
use os.Kernel.Alloc.Arena.{IsArena}
use os.Kernel.Cpio.Archive.{Entry}
use os.Kernel.Elf.Header.{Header}
use os.Kernel.Init.{kernel_init}
use os.Kernel.Pool.Api.{PoolApi}
use os.Kernel.Process.{Kernel}
use os.Kernel.Space.{Config}
use os.Kernel.Start.{StartFrame, kernel_start}
use os.Kernel.Syscall.{Console}
use os.Machine.{ok}
use os.Machine.Memory.{Ptr, Memory, null}
use os.Machine.Memory.Words.{load64}
use os.System.Launch.{mark_of, CanStart}
use os.System.Boot.{Argv, FirstRuns, kernel_start_runs}

-- The host has the file and the memory, and its calls, which take memory from `m` to `m'`, do not
-- fail.
pub record Supplies (files : Files) (cpio rootfs mem : Ptr) (m m' : Memory) : Type 0 where
  pub size : ℕ
  pub fd : ℤ
  pub found : Memory
  pub taken : Memory
  pub opened : Memory
  pub filled : Memory
  pub closed : Memory
  pub stat : files.stat cpio m ≡ ok (some size) found
  pub malloc : files.malloc size found ≡ ok rootfs taken
  pub rootfs_set : rootfs ≢ null
  pub open_file : files.open_file cpio taken ≡ ok fd opened
  pub fd_valid : fd ≢ negsuc 0
  pub read_file : files.read_file fd rootfs size opened ≡ ok (pos size) filled
  pub close_file : files.close_file fd filled ≡ ok tt closed
  pub mmap : files.mmap memsz closed ≡ ok (some mem) m'
  pub mem_set : mem ≢ null

all_read : (n : ℕ) → is_zero (pos n -ℤ pos n) ≡ true
unfolding ◌-ℤ◌
all_read n = ground arith

valid_fd : (fd : ℤ) → fd ≢ negsuc 0 → is_zero (fd -ℤ negsuc 0) ≡ false
valid_fd fd ne = elim (Bool-cases (is_zero (fd -ℤ negsuc 0))) [
  | inl z ↦ absurd (ne (eq_of_parts fd (negsuc 0) (ground (arith, z, -ℤ_parts fd (negsuc 0)))))
  | inr n ↦ n
]

module _ {files : Files} {cpio rootfs mem : Ptr} {m m' : Memory}
    (host : Supplies files cpio rootfs mem m m') where
  open host use {
    stat, malloc, rootfs_set, open_file, fd_valid, read_file, close_file, closed, size, fd,
  }

  read_rootfs-closed : read_rootfs files cpio m ≡ ok rootfs closed
  unfolding read_rootfs
  read_rootfs-closed = ground (
    arith,
    stat,
    malloc,
    rootfs_set,
    open_file,
    valid_fd fd fd_valid,
    read_file,
    close_file,
    all_read size,
  )

-- The kernel's state when `main` calls `kernel_start`, with the memory `m`.
abbrev pub at_start : {api : PoolApi} → Kernel api → (rootfs mem : Ptr) (m : Memory) → Kernel api
at_start s rootfs mem m = record s {
  space = record s.space { memory = m; globals = kernel_init rootfs mem memsz s.space.globals };
}

module _ (files : Files) (api : PoolApi) (sigs : Signals) (strcmp : (a b : List ℕ) → ℤ)
    (strstr : (haystack needle : List ℕ) → Bool) (text bss : Hole) (lines : Maps) (config : Config)
    (console : Console) (f k : ℕ) (frame : StartFrame) (s : Host files api sigs) where
  module _ (rootfs mem : Ptr) (m0 m : Memory) where
    boot-entered :
        (res : ℤ) (t : ExnState sigs) (entry : Ptr) (u : Kernel api)
        → exn_init sigs strcmp strstr text bss
            (at_start s.kernel rootfs mem m0).space.globals
            lines
            s.exn
          ≡ ok res t
        → kernel_start api config console f k frame (at_start s.kernel rootfs mem m0)
          ≡ ok (some entry) u
        → boot files api sigs strcmp strstr text bss lines config console f k frame rootfs
            (some mem)
            (record s {
              kernel = record s.kernel { space = record s.kernel.space { memory = m0 } };
            })
          ≡ ok (entered entry) (record { kernel = u; exn = t })
    unfolding boot
    boot-entered res t entry u init start = ground (arith, init, start)

    -- With an argument, a host that has the file and the memory, tables that `exn_init` sets up, a
    -- pool with no block handed out, an allocator that has not been used, and a first program in
    -- the archive that can be started, `main` enters it: its process is current, alone, with its
    -- program at the start of the memory.
    pub main_boots :
        {e : Entry} {h : Header} {bytes : List ℕ} {vaddr size offset filesz : ℕ} (argc : ℕ)
        (argv cpio : Ptr) (res : ℤ) (t : ExnState sigs)
        → 1 < argc
        → load64 (argv + 8) s.kernel.space.memory ≡ ok cpio s.kernel.space.memory
        → Supplies files cpio rootfs mem s.kernel.space.memory m0
        → exn_init sigs strcmp strstr text bss
            (at_start s.kernel rootfs mem m0).space.globals
            lines
            s.exn
          ≡ ok res t
        → s.kernel.space.execbufp ≡ null
        → api.Live s.kernel.procpool []
        → 0 < api.capacity
        → Argv frame m0 m
        → CanStart config
            (at_start s.kernel rootfs mem m).space
            frame.argv
            e
            h
            bytes
            vaddr
            size
            offset
            filesz
        → (s' : Kernel api) × (main files api sigs strcmp strstr text bss lines config console f k
              frame
              (pos argc)
              argv
              s
            ≡ ok (entered (mem + (h.entry - vaddr))) (record { kernel = s'; exn = t }))
          × FirstRuns api (at_start s.kernel rootfs mem m) s' frame.argv bytes size
    unfolding main kernel_init allocinit
    main_boots {e} {h} {bytes} {vaddr} argc argv cpio res t more named host init unused empty room
          stores can =
        let start : Kernel api = at_start s.kernel rootfs mem m0 in
        let arena : IsArena start.space.globals start.space.execbufp = record {
          not_null = ground (arith, host.mem_set);
          above = λ ne. absurd (ne unused);
          below = omega (arith, unused);
        } in
        let (s', run, first) =
          kernel_start_runs api config console f k frame start m empty room arena stores can in
        let at_mark : mark_of start.space ≡ mem = ground (arith, unused) in
        (
          s',
          ground (
            arith,
            named,
            read_rootfs-closed host,
            host.rootfs_set,
            host.mmap,
            more,
            boot-entered res t (mem + (h.entry - vaddr)) s' init (rw at_mark at run),
          ),
          first,
        )
