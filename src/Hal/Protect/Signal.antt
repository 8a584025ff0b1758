-- ===== src/Hal/Protect/Signal.antt =====
-- The signal handler on the page protections.
use os.Prelude.{ℕ, ◌≡◌, ◌≢◌, Bool, true, false, List, [], ◌∷◌, arith, ◌∙◌}
use os.Prelude.Int.{ℤ}
use os.Kernel.Exn.{Exndes, exn_do}
use os.Kernel.Process.{Proc}
use os.Machine.{Cmd, ok}
use os.Machine.Memory.{Ptr, null}
use os.Hal.Protect.{Mprotect, sighnd, host_vm_prot, protect_entries, all_entries}
use os.Hal.Protect.Isolate.{
  AllPages, HasPages, process_prot, host_vm_prot-process, pages, sys_mprotect-AllPages,
  protect_entries-IsMapped, prot_at-not_held, prot_at-all_entries,
}
use os.Hal.Vm.{Kmmap, MmapEnt}

module _ (m : Mprotect) {Kernel Hnd : Type 0} (call : Hnd → ℤ → ℕ → Cmd Kernel Bool)
    (current_process : Kernel → Ptr × Proc) where
  open m use {State, prot_at}

  protect_entries-AllPages :
      (restore : Bool) (xs : List MmapEnt) (s : State) (es : List MmapEnt)
      → AllPages m s es
      → AllPages m (protect_entries m restore xs s) es
  unfolding protect_entries
  protect_entries-AllPages restore [] s es ps = ps
  protect_entries-AllPages restore (x ∷ xs) s es ps =
      protect_entries-AllPages restore xs _ es (sys_mprotect-AllPages m x.from x.sz _ s es ps)

  protect_entries-HasPages :
      (restore : Bool) (xs : List MmapEnt) (s : State) (curp : Proc)
      → HasPages m s curp
      → HasPages m (protect_entries m restore xs s) curp
  protect_entries-HasPages restore xs s curp (pages (lm, la, lz) (sm, sa, sz)) =
      pages (protect_entries-IsMapped m restore xs s lm, la, lz)
        (protect_entries-IsMapped m restore xs s sm, sa, sz)

  process_prot-restored :
      (k : Kmmap) (curp : Proc) (s : State) (a : ℕ)
      → AllPages m s k.procmaps
      → process_prot m a k curp (prot_at (protect_entries m true (all_entries k) s) a)
        ≡ process_prot m a k curp (prot_at s a)
  process_prot-restored k curp s a ps =
      ground (arith, prot_at-all_entries m true k s a, prot_at-not_held m true k.procmaps s a ps)

  -- Where the table's entries are mapped ranges of whole pages, and so are the load and the stack
  -- of the process that is current, and not NULL, when the handlers of a signal are done, be it
  -- another than before: the signal handler ends with that process finding its stack readable and
  -- writable, its load also executable, nothing else that the table holds, and every other address
  -- as it was before.
  pub sighnd-process :
      (k : Kmmap) (table : List (Exndes Hnd)) (sig : ℤ) (kernel kernel' : Kernel) (s : State)
      → AllPages m s k.procmaps
      → HasPages m s (current_process kernel').1
      → (current_process kernel').0 ≢ null
      → exn_do call table sig kernel ≡ ok tt kernel'
      → (s' : State) × (sighnd m call current_process k table sig (kernel, s) ≡ ok tt (kernel', s'))
        × ((a : ℕ) → prot_at s' a ≡ process_prot m a k (current_process kernel').1 (prot_at s a))
  unfolding sighnd host_vm_prot
  sighnd-process k table sig kernel kernel' s ps found there e =
      let restored = protect_entries m true (all_entries k) s in
      let curp = (current_process kernel').1 in
      (
        host_vm_prot m false k curp restored,
        ground (arith, there, e),
        λ a.
            host_vm_prot-process m k curp restored
              (protect_entries-AllPages true (all_entries k) s k.procmaps ps)
              (protect_entries-HasPages true (all_entries k) s curp found) a
            ∙ process_prot-restored k curp s a ps,
      )
