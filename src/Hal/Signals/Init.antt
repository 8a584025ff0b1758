-- ===== src/Hal/Signals/Init.antt =====
-- What `exn_init` leaves behind, and what a signal then does.
use native.Mathlib.Nat.{eq-or-lt_of_le}
use os.Prelude.{
  ℕ, zero, suc, ◌+◌, ◌≡◌, ◌≢◌, ◌≤◌, ◌<◌, Bool, true, false, List, length, some, arith, refl, inl,
  inr, Bool-cases,
}
use os.Prelude.Int.{ℤ, pos, negsuc, ◌+ℤ◌}
use os.Hal.Protect.{Mprotect, sighnd, vm_prot, in_kernel}
use os.Hal.Signals.{
  Signals, Handler, syscall_handler, call_handler, sigsegv, is_left_out, is_failure, ExnState,
  in_kmmap, set_signals, exn_init,
}
use os.Hal.Trap.{syscall_hnd}
use os.Hal.Vm.{Hole, Kmmap, Maps, host_vm_init}
use os.Kernel.Exn.{Exndes, exn_n_max, exn_set_hnd, exn_do, call_hnd}
use os.Kernel.Exn.Table.{exn_do-exn_set_hnd}
use os.Kernel.Init.{Globals}
use os.Kernel.Pool.Api.{PoolApi}
use os.Kernel.Process.{Kernel, current_process}
use os.Kernel.Space.{Config}
use os.Kernel.Syscall.{Console}
use os.Machine.{ok, pure, ◌>>◌, >>=-ok}

module _ (sigs : Signals) where
  open sigs use {State, sigaction, is_handled, sigaction-is_handled, sigaction-is_handled_too}

  -- The calls that set a handler of a signal from 1 to 31 do not fail, but for the two that cannot
  -- be caught.
  abbrev pub CanBeSet : Type 0
  CanBeSet =
      (sig : ℕ) (s : State)
      → 1 ≤ sig
      → sig ≤ 31
      → is_left_out sig ≡ false
      → (sigaction sig s).1 ≢ negsuc 0

  -- `sighnd` is set for the `n` signals from `i` on that can be caught.
  abbrev pub AreHandled : (n i : ℕ) → State → Type 0
  AreHandled n i h =
      (sig : ℕ) → i ≤ sig → sig < i + n → is_left_out sig ≡ false → is_handled h sig ≡ true

  Sets : (n i : ℕ) (s : ExnState sigs) → Type 0
  Sets n i s =
      (h : State) × (set_signals sigs n i s ≡ ok (pos 0) (record s { host = h }))
      × ((sig : ℕ) → is_handled s.host sig ≡ true → is_handled h sig ≡ true)
      × AreHandled n i h

  Sets-left_out :
      (n i : ℕ) (s : ExnState sigs) → is_left_out i ≡ true → Sets n (suc i) s → Sets (suc n) i s
  unfolding Sets set_signals
  Sets-left_out n i s out (h, e, keeps, new) = (
    h,
    ground (arith, e, out),
    keeps,
    λ sig lo hi l. elim (eq-or-lt_of_le lo) [
      | inl same ↦ ground (arith, out, l, same)
      | inr later ↦ new sig later (omega arith) l
    ],
  )

  not_failure : (r : ℤ) → r ≢ negsuc 0 → is_failure r ≡ false
  unfolding ◌+ℤ◌
  not_failure (pos n) ne = ground arith
  not_failure (negsuc zero) ne = ground (arith, ne refl)
  not_failure (negsuc (suc n)) ne = ground arith

  Sets-set :
      (n i : ℕ) (s : ExnState sigs)
      → is_left_out i ≡ false
      → 1 ≤ i
      → i ≤ 31
      → CanBeSet
      → Sets n (suc i) (record s { host = (sigaction i s.host).0 })
      → Sets (suc n) i s
  unfolding Sets set_signals
  Sets-set n i s set from to can (h, e, keeps, new) = (
    h,
    ground (arith, e, set, not_failure _ (can i s.host from to set)),
    λ sig was. keeps sig (sigaction-is_handled_too i sig s.host was),
    λ sig lo hi l. elim (eq-or-lt_of_le lo) [
      | inl same ↦ rw (← same) (keeps i (sigaction-is_handled i s.host (can i s.host from to set)))
      | inr later ↦ new sig later (omega arith) l
    ],
  )

  set_signals-Sets : (n i : ℕ) (s : ExnState sigs) → 1 ≤ i → i + n ≤ 32 → CanBeSet → Sets n i s
  unfolding Sets set_signals
  set_signals-Sets zero i s from to can =
      (s.host, refl, λ sig e. e, λ sig lo hi l. ground (arith, lo, hi))
  set_signals-Sets (suc n) i s from to can = elim (Bool-cases (is_left_out i)) [
    | inl out ↦
        Sets-left_out n i s out (set_signals-Sets n (suc i) s (omega arith) (omega arith) can)
    | inr set ↦
        Sets-set n i s set from (omega arith) can
          (set_signals-Sets n (suc i) _ (omega arith) (omega arith) can)
  ]

  set_31 :
      (s : ExnState sigs)
      → CanBeSet
      → (h : State) × (set_signals sigs 31 1 s ≡ ok (pos 0) (record s { host = h }))
        × ((sig : ℕ) → is_handled s.host sig ≡ true → is_handled h sig ≡ true)
        × AreHandled 31 1 h
  unfolding Sets
  set_31 s can = set_signals-Sets 31 1 s (omega arith) (omega arith) can

  -- The table of exceptions and the state before the loop over the signals.
  abbrev table_of : ExnState sigs → List (Exndes Handler) × ℤ
  table_of s = exn_set_hnd (pos sigsegv) (some syscall_handler) 0 s.exndes

  abbrev begun : ExnState sigs → Kmmap → ExnState sigs
  begun s k = record { kmmap = k; exndes = (table_of s).0; host = (sigs.sigaltstack s.host).0 }

  table_of-accepted : (s : ExnState sigs) → (table_of s).1 ≡ pos 0
  unfolding exn_set_hnd
  table_of-accepted s = refl

  module _ (strcmp : (a b : List ℕ) → ℤ) (strstr : (haystack needle : List ℕ) → Bool) where
    exn_init-runs :
        (text bss : Hole) (g : Globals) (ls : Maps) (s : ExnState sigs) (k : Kmmap) (kept : Bool)
        {t : ExnState sigs}
        → host_vm_init strcmp strstr text bss g ls s.kmmap ≡ ok kept k
        → (sigs.sigaltstack s.host).1 ≡ pos 0
        → (table_of s).1 ≡ pos 0
        → set_signals sigs 31 1 (begun s k) ≡ ok (pos 0) t
        → exn_init sigs strcmp strstr text bss g ls s ≡ ok (pos 0) t
    unfolding exn_init
    exn_init-runs text bss g ls s k kept mapped stack set e =
        let maps : in_kmmap sigs (host_vm_init strcmp strstr text bss g ls) s
            ≡ ok kept (record s { kmmap = k }) =
          rw (mapped, in_kmmap) refl in
        >>=-ok (in_kmmap sigs (host_vm_init strcmp strstr text bss g ls)) _ maps
          (rw stack (rw set e))

    -- Where the mappings are read, the table of exceptions is whole, and the host's calls do
    -- not fail, `sigaction` for the signals from 1 to 31 that can be caught, `exn_init` returns
    -- 0: the table of mappings is that of `host_vm_init`, `sighnd` is set for every signal from
    -- 1 to 31 that can be caught, and a fault then runs `syscall_hnd` between the two changes
    -- of the page protections, with any other signal's handlers as before.
    pub exn_init_lem :
        (text bss : Hole) (g : Globals) (ls : Maps) (s : ExnState sigs) (k : Kmmap) (kept : Bool)
        (m : Mprotect) (api : PoolApi) (config : Config) (args : ℕ) (console : Console)
        → length s.exndes ≡ exn_n_max
        → host_vm_init strcmp strstr text bss g ls s.kmmap ≡ ok kept k
        → (sigs.sigaltstack s.host).1 ≡ pos 0
        → CanBeSet
        → (t : ExnState sigs) × (exn_init sigs strcmp strstr text bss g ls s ≡ ok (pos 0) t)
          × (t.kmmap ≡ k)
          × AreHandled 31 1 t.host
          × ((x : Kernel api × m.State)
              → sighnd m
                  (call_handler api config args console)
                  (current_process api)
                  t.kmmap
                  t.exndes
                  (pos sigsegv)
                  x
                ≡ (vm_prot m (call_handler api config args console) (current_process api) true k
                      >> in_kernel m
                          (call_handler api config args console)
                          (current_process api)
                          (syscall_hnd api config args console >> pure tt)
                      >> vm_prot m
                          (call_handler api config args console)
                          (current_process api)
                          false
                          k)
                    x)
          × ((sig : ℕ) (x : Kernel api)
              → sig < exn_n_max
              → sig ≢ sigsegv
              → exn_do (call_handler api config args console) t.exndes (pos sig) x
                ≡ exn_do (call_handler api config args console) s.exndes (pos sig) x)
    unfolding sighnd call_hnd
    exn_init_lem text bss g ls s k kept m api config args console whole mapped stack can =
        let call = call_handler api config args console in
        let set = exn_do-exn_set_hnd call s.exndes whole (some syscall_handler) 0 sigsegv in
        let (h, e, keeps, new) = set_31 (begun s k) can in
        (
          record (begun s k) { host = h },
          exn_init-runs text bss g ls s k kept mapped stack (table_of-accepted s) e,
          refl,
          new,
          λ x. rw ((set sigsegv x.0 (omega arith) (omega arith)).1, in_kernel) refl,
          λ sig x lt ne. (set sig x (omega arith) lt).2 ne,
        )
