-- ===== src/Hal/Main.antt =====
-- hosthal/init.c: the start of the host's process. What it calls of the host is a parameter; what
-- it prints is left out.
pub mod Exits
use os.Prelude.{ℕ, ◌+◌, ◌==◌, if◌then◌else◌, not, Bool, Option, some, none, List}
use os.Prelude.Int.{ℤ, pos, negsuc, ltb_ℤ, is_zero, ◌-ℤ◌}
use os.Hal.Signals.{Signals, ExnState, exn_init}
use os.Hal.Vm.{Hole, Maps}
use os.Kernel.Init.{kernel_init}
use os.Kernel.Pool.Api.{PoolApi}
use os.Kernel.Process.{Kernel, in_space}
use os.Kernel.Space.{Config, on_memory}
use os.Kernel.Start.{StartFrame, kernel_start}
use os.Kernel.Syscall.{Console}
use os.Machine.{Cmd, ok, fault, out_of_fuel, halted, pure, ◌>>=◌, ◌>>◌}
use os.Machine.Memory.{Ptr, null, Prog}
use os.Machine.Memory.Words.{load64}

-- The calls of the host: `none` is a failure of `stat`, which else gives the size of the file, and
-- of `mmap`, which is called for memory that can be read, written and executed.
pub record Files : Type 0 where
  pub stat : (path : Ptr) → Prog (Option ℕ)
  pub malloc : (size : ℕ) → Prog Ptr
  pub open_file : (path : Ptr) → Prog ℤ
  pub read_file : (fd : ℤ) (buf : Ptr) (size : ℕ) → Prog ℤ
  pub close_file : (fd : ℤ) → Prog (Unit {0})
  pub mmap : (size : ℕ) → Prog (Option Ptr)

-- The file is read in one call, and NULL is returned where that fails.
unfoldable pub read_rootfs : Files → (cpio : Ptr) → Prog Ptr
read_rootfs files cpio = do
  st ← files.stat cpio
  elim st [
    | none ↦ pure null
    | some size ↦ do
      rootfs ← files.malloc size
      if rootfs == null then pure null else do
        fd ← files.open_file cpio
        if is_zero (fd -ℤ negsuc 0) then pure null else do
          got ← files.read_file fd rootfs size
          if not (is_zero (got -ℤ pos size)) then pure null else do files.close_file fd; pure rootfs
  ]

-- `const size_t memsz = 0x1000000;`
abbrev pub memsz : ℕ
memsz = 0x1000000

-- What main comes to: its exit code, or the entry of the first process.
pub data Outcome : Type 0 where
  exited : (code : ℤ) → Outcome
  entered : (entry : Ptr) → Outcome

module _ (files : Files) (api : PoolApi) (sigs : Signals) where
  -- The kernel's state, and what `exn_init` sets up.
  pub record Host : Type 0 where
    pub kernel : Kernel api
    pub exn : ExnState sigs

  abbrev pub in_kernel_of : {A : Type 0} → Cmd (Kernel api) A → Cmd Host A
  in_kernel_of c s = elim (c s.kernel) [
    | ok a k ↦ ok a (record s { kernel = k })
    | fault ↦ fault
    | out_of_fuel ↦ out_of_fuel
    | halted k ↦ halted (record s { kernel = k })
  ]

  abbrev pub in_exn : {A : Type 0} → (Kernel api → Cmd (ExnState sigs) A) → Cmd Host A
  in_exn c s = elim (c s.kernel s.exn) [
    | ok a e ↦ ok a (record s { exn = e })
    | fault ↦ fault
    | out_of_fuel ↦ out_of_fuel
    | halted e ↦ halted (record s { exn = e })
  ]

  abbrev pub host_call : {A : Type 0} → Prog A → Cmd Host A
  host_call p = in_kernel_of (in_space api (on_memory p))

  -- `kernel_init(rootfs, mem, memsz, "")`
  abbrev pub init_globals : (rootfs mem : Ptr) → Cmd Host (Unit {0})
  init_globals rootfs mem = in_kernel_of (λ k. ok tt (record k {
    space = record k.space { globals = kernel_init rootfs mem memsz k.space.globals };
  }))

  module _ (strcmp : (a b : List ℕ) → ℤ) (strstr : (haystack needle : List ℕ) → Bool)
      (text bss : Hole) (lines : Maps) (config : Config) (console : Console) (f k : ℕ)
      (frame : StartFrame) where
    -- The result of `kernel_start`: where it returns, main ends.
    abbrev pub ended : Option Ptr → Cmd Host Outcome
    ended none = pure (exited (pos 0))
    ended (some entry) = pure (entered entry)

    -- From the test of `mem` on. The result of `exn_init` is not used.
    unfoldable pub boot : (rootfs : Ptr) → (mem : Option Ptr) → Cmd Host Outcome
    unfolding exn_init kernel_start
    boot rootfs none = pure (exited (pos 1))
    boot rootfs (some mem) = do
      init_globals rootfs mem
      in_exn (λ kern. exn_init sigs strcmp strstr text bss kern.space.globals lines)
      first ← in_kernel_of (kernel_start api config console f k frame)
      ended first

    unfoldable pub main : (argc : ℤ) (argv : Ptr) → Cmd Host Outcome
    unfolding read_rootfs boot
    main argc argv = if not (ltb_ℤ (pos 1) argc) then pure (exited (pos 1)) else do
      cpio ← host_call (load64 (argv + 8))
      rootfs ← host_call (read_rootfs files cpio)
      if rootfs == null
          then pure (exited (pos 1))
          else do mem ← host_call (files.mmap memsz); boot rootfs mem
