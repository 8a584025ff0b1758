-- ===== src/Hal/Protect.antt =====
-- hosthal/exn.c: `host_vm_prot`, which takes the host's own memory away from a running process and
-- gives it back, and `sighnd`, the handler of all signals. The system call that
-- `sysmprotect` makes is a parameter.
pub mod Isolate
pub mod Signal
use os.Prelude.{
  ◌&&◌, ◌==◌, not, ℕ, ◌+◌, ◌-◌, ◌%◌, ◌^◌, ◌≡◌, ◌≤◌, ◌<◌, ◌⊎◌, Bool, true, false, if◌then◌else◌,
  List, [], ◌∷◌, ◌++◌, length, replicate,
}
pub use os.Prelude.Int.{to_size}
use os.Prelude.Int.{ℤ, pos, negsuc}
use os.Kernel.Exn.{Exndes, exn_do}
use os.Kernel.Process.{Proc}
use os.Machine.Memory.{Ptr, null}
use os.Machine.{Run, Cmd, ok, fault, out_of_fuel, halted, pure, ◌>>=◌, ◌>>◌}
use os.Hal.Vm.{MmapEnt, Kmmap, procmaps_max}

abbrev pub page : ℕ
page = 0x1000

-- mprotect as its manual says: on mapped pages it sets the protection of the range, rounded up to
-- whole pages, and never changes another page.
pub record Mprotect : Type 1 where
  pub State : Type 0
  pub sys_mprotect : (addr size prot : ℕ) → State → State
  pub prot_at : State → ℕ → ℕ
  pub IsMapped : (addr size : ℕ) → State → Type 0
  pub sys_mprotect-IsMapped :
      (addr size prot : ℕ) (s : State) {addr' size' : ℕ}
      → IsMapped addr' size' s
      → IsMapped addr' size' (sys_mprotect addr size prot s)
  pub prot_at-inside :
      (addr size prot : ℕ) (s : State) (a : ℕ)
      → IsMapped addr size s
      → addr % page ≡ 0
      → addr ≤ a
      → a < addr + size
      → prot_at (sys_mprotect addr size prot s) a ≡ prot
  pub prot_at-outside :
      (addr size prot : ℕ) (s : State) (a : ℕ)
      → size % page ≡ 0
      → (a < addr) ⊎ (addr + size ≤ a)
      → prot_at (sys_mprotect addr size prot s) a ≡ prot_at s a

-- The entries of the whole array.
abbrev pub all_entries : Kmmap → List MmapEnt
all_entries k =
    k.procmaps
    ++ replicate (procmaps_max - length k.procmaps) (record { from = 0; sz = 0; prot = 0 })

module _ (m : Mprotect) where
  open m use {State, sys_mprotect}

  -- What the system call returns is not used.
  abbrev pub sysmprotect : (addr size prot : ℕ) → State → State
  sysmprotect addr size prot s = sys_mprotect addr size prot s

  unfoldable pub protect_entries : (restore : Bool) → List MmapEnt → State → State
  protect_entries restore [] s = s
  protect_entries restore (e ∷ es) s =
      protect_entries restore es (sysmprotect e.from e.sz (if restore then e.prot else 0) s)

  -- PROT_READ | PROT_WRITE is 3, and PROT_EXEC adds 4.
  unfoldable pub protect_process : Proc → State → State
  protect_process curp s =
      let s = sysmprotect curp.load (to_size curp.loadsz) 7 s in
      sysmprotect curp.stack curp.stacksz 3 s

  -- `curp` is the structure of the current process, which is not read where `restore` is true. That it
  -- is read through NULL where there is no process is the fault of `vm_prot`.
  unfoldable pub host_vm_prot : (restore : Bool) → Kmmap → (curp : Proc) → State → State
  unfolding protect_entries protect_process
  host_vm_prot restore k curp s =
      let s = protect_entries restore (all_entries k) s in
      if restore then s else protect_process curp s

  -- The signal handler, with the kernel's state and the page protections as its state.
  module _ {Kernel Hnd : Type 0} (call : Hnd → ℤ → ℕ → Cmd Kernel Bool)
      (current_process : Kernel → Ptr × Proc) where
    -- The structure of the current process is read where `restore` is false.
    abbrev pub vm_prot : (restore : Bool) → Kmmap → Cmd (Kernel × State) (Unit {0})
    vm_prot restore k s =
        if not restore && ((current_process s.0).0 == null)
        then fault
        else ok tt (s.0, host_vm_prot restore k (current_process s.0).1 s.1)

    abbrev pub in_kernel : {A : Type 0} → Cmd Kernel A → Cmd (Kernel × State) A
    in_kernel c s = elim (c s.0) [
      | ok a kernel ↦ ok a (kernel, s.1)
      | fault ↦ fault
      | out_of_fuel ↦ out_of_fuel
      | halted kernel ↦ halted (kernel, s.1)
    ]

    unfoldable pub sighnd :
        Kmmap → (table : List (Exndes Hnd)) → (sig : ℤ) → Cmd (Kernel × State) (Unit {0})
    unfolding host_vm_prot
    sighnd k table sig = vm_prot true k >> in_kernel (exn_do call table sig) >> vm_prot false k
