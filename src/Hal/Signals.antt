-- ===== src/Hal/Signals.antt =====
-- hosthal/exn.c: `exn_init`, which sets up the table of mappings, the handler of the fault that a
-- system call raises, and `sighnd` for the signals of the host. The host's sigaltstack and
-- sigaction are a parameter.
pub mod Init
use os.Prelude.{
  ℕ, zero, suc, ◌==◌, ◌||◌, ◌≡◌, ◌≢◌, Bool, true, false, List, if◌then◌else◌, not, some,
}
use os.Prelude.Int.{ℤ, pos, negsuc, is_zero, ◌+ℤ◌}
use os.Hal.Trap.{syscall_hnd}
use os.Hal.Vm.{Hole, Kmmap, Maps, host_vm_init}
use os.Kernel.Exn.{Exndes, exn_set_hnd}
use os.Kernel.Init.{Globals}
use os.Kernel.Pool.Api.{PoolApi}
use os.Kernel.Process.{Kernel}
use os.Kernel.Space.{Config}
use os.Kernel.Syscall.{Console}
use os.Machine.{Run, Cmd, ok, fault, out_of_fuel, halted, pure, ◌>>=◌, ◌>>◌}

-- The calls as their manual says, with `sighnd` as the handler that is set. A signal that has it
-- keeps it when another one is set.
pub record Signals : Type 1 where
  pub State : Type 0
  pub sigaltstack : State → State × ℤ
  pub sigaction : (sig : ℕ) → State → State × ℤ
  pub is_handled : State → (sig : ℕ) → Bool
  pub sigaction-is_handled :
      (sig : ℕ) (s : State)
      → (sigaction sig s).1 ≢ negsuc 0
      → is_handled (sigaction sig s).0 sig ≡ true
  pub sigaction-is_handled_too :
      (sig sig' : ℕ) (s : State)
      → is_handled s sig' ≡ true
      → is_handled (sigaction sig s).0 sig' ≡ true

-- The only handler that is set.
pub data Handler : Type 0 where
  syscall_handler : Handler

-- The call of a handler: its arguments `exn` and `arg` are not used.
abbrev pub call_handler :
    (api : PoolApi) (config : Config) (args : ℕ) (console : Console)
    → Handler
    → ℤ
    → ℕ
    → Cmd (Kernel api) Bool
call_handler api config args console syscall_handler exn arg = syscall_hnd api config args console

-- SIGSEGV, SIGKILL and SIGSTOP.
abbrev pub sigsegv : ℕ
sigsegv = 11

abbrev pub sigkill : ℕ
sigkill = 9

abbrev pub sigstop : ℕ
sigstop = 19

abbrev pub is_left_out : (i : ℕ) → Bool
is_left_out i = (i == sigkill) || (i == sigstop)

-- `-1 == res`
abbrev pub is_failure : ℤ → Bool
is_failure res = is_zero (res +ℤ pos 1)

module _ (sigs : Signals) where
  -- What `exn_init` changes.
  pub record ExnState : Type 0 where
    pub kmmap : Kmmap
    pub exndes : List (Exndes Handler)
    pub host : sigs.State

  abbrev pub in_kmmap : {A : Type 0} → Cmd Kmmap A → Cmd ExnState A
  in_kmmap c s = elim (c s.kmmap) [
    | ok a k ↦ ok a (record s { kmmap = k })
    | fault ↦ fault
    | out_of_fuel ↦ out_of_fuel
    | halted k ↦ halted (record s { kmmap = k })
  ]

  abbrev pub on_host : (sigs.State → sigs.State × ℤ) → Cmd ExnState ℤ
  on_host f s = let r = f s.host in ok r.1 (record s { host = r.0 })

  -- `exn_set_hnd(SIGSEGV, syscall_hnd, NULL)`
  abbrev pub set_syscall_hnd : Cmd ExnState ℤ
  set_syscall_hnd s =
      let r = exn_set_hnd (pos sigsegv) (some syscall_handler) 0 s.exndes in
      ok r.1 (record s { exndes = r.0 })

  -- The loop over the signals from `i` on, of which `n` are left.
  unfoldable pub set_signals : (n i : ℕ) → Cmd ExnState ℤ
  set_signals zero i = pure (pos 0)
  set_signals (suc n) i =
      if is_left_out i
      then set_signals n (suc i)
      else on_host (sigs.sigaction i) >>= λ r.
          if is_failure r then pure (negsuc 0) else set_signals n (suc i)

  -- The result of `host_vm_init` is 0.
  module _ (strcmp : (a b : List ℕ) → ℤ) (strstr : (haystack needle : List ℕ) → Bool) where
    unfoldable pub exn_init : (text bss : Hole) → Globals → Maps → Cmd ExnState ℤ
    unfolding set_signals
    exn_init text bss g ls = do
      in_kmmap (host_vm_init strcmp strstr text bss g ls)
      stack ← on_host sigs.sigaltstack
      if not (is_zero stack)
          then pure (negsuc 0)
          else do res ← set_syscall_hnd; if not (is_zero res) then pure res else set_signals 31 1
