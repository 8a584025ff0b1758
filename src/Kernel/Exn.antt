-- ===== src/Kernel/Exn.antt =====
-- kernel/exn.c and kernel/exn.h: the table of exception handlers. A handler is a value of a type
-- `Hnd`, `none` for NULL, that `call` runs on the state.
pub mod Table
use os.Prelude.{
  ℕ, ◌+◌, ◌==◌, ◌&&◌, ◌||◌, Bool, true, false, Option, some, none, if◌then◌else◌, not, leb, ltb,
  List, get_elem?, set,
}
use os.Prelude.Int.{ℤ, pos, negsuc, pos_part, ltb_ℤ}
use os.Machine.{Cmd, ok, fault, halted, pure, ◌>>=◌}

abbrev pub exn_n_max : ℕ
exn_n_max = 64

-- `exn < 0 || EXN_N_MAX <= exn`
abbrev pub out_of_table : ℤ → Bool
out_of_table exn = ltb_ℤ exn (pos 0) || not (ltb_ℤ exn (pos exn_n_max))

pub record Exndes (Hnd : Type 0) : Type 0 where
  pub hnd : Option Hnd
  pub arg : ℕ

module _ {Hnd : Type 0} where
  -- The new table and the result.
  unfoldable pub exn_set_hnd :
      (exn : ℤ) (h : Option Hnd) (arg : ℕ) → List (Exndes Hnd) → List (Exndes Hnd) × ℤ
  exn_set_hnd exn h arg table =
      if out_of_table exn
      then (table, negsuc 0)
      else (set table (pos_part exn) (record { hnd = h; arg = arg }), pos 0)

  module _ {S : Type 0} (call : Hnd → ℤ → ℕ → Cmd S Bool) where
    -- The result of the handler is not used.
    unfoldable pub call_hnd : Exndes Hnd → ℤ → Cmd S (Unit {0})
    call_hnd e exn = elim e.hnd [ none ↦ pure tt | some h ↦ call h exn e.arg >>= λ _. pure tt ]

    -- A failed assertion halts.
    unfoldable pub exn_do : List (Exndes Hnd) → (exn : ℤ) → Cmd S (Unit {0})
    unfolding call_hnd
    exn_do table exn =
        if out_of_table exn
        then halted
        else elim (get_elem? table (pos_part exn)) [ none ↦ λ _. fault | some e ↦ call_hnd e exn ]
