-- ===== src/Kernel/Exn/Table.antt =====
-- What a handler that is set is called for.
use os.Prelude.{
  sym, ℕ, ◌≡◌, ◌≢◌, Bool, true, Option, List, length, get_elem?-set_self, get_elem?-set_ne, arith,
  ◌<◌,
}
use os.Prelude.Int.{ℤ, pos, negsuc}
use os.Machine.{Cmd, halted}
use os.Kernel.Exn.{Exndes, exn_n_max, out_of_table, exn_set_hnd, call_hnd, exn_do}

module _ {Hnd S : Type 0} (call : Hnd → ℤ → ℕ → Cmd S Bool) (table : List (Exndes Hnd))
    (whole : length table ≡ exn_n_max) (h : Option Hnd) (arg : ℕ) where
  pub exn_do-exn_set_hnd :
      (n k : ℕ) (s : S)
      → n < exn_n_max
      → k < exn_n_max
      → let r = exn_set_hnd (pos n) h arg table in
        (r.1 ≡ pos 0)
        × (exn_do call r.0 (pos n) s ≡ call_hnd call (record { hnd = h; arg = arg }) (pos n) s)
        × ((k ≢ n) → exn_do call r.0 (pos k) s ≡ exn_do call table (pos k) s)
  unfolding exn_set_hnd exn_do
  exn_do-exn_set_hnd n k s hn hk = (
    ground arith,
    ground (arith, get_elem?-set_self table n (record { hnd = h; arg = arg }) (omega arith)),
    λ ne. ground (
      arith,
      get_elem?-set_ne table {i = n} {j = k} (record { hnd = h; arg = arg }) (λ e. ne (sym e)),
    ),
  )

  -- Any other number is refused and changes nothing, and its exception halts.
  exn_set_hnd-refused :
      (exn : ℤ) (s : S)
      → out_of_table exn ≡ true
      → (exn_set_hnd exn h arg table ≡ (table, negsuc 0)) × (exn_do call table exn s ≡ halted s)
  unfolding exn_set_hnd exn_do
  exn_set_hnd-refused exn s out = ground arith
