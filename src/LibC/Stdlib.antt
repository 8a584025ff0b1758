-- ===== src/LibC/Stdlib.antt =====
-- libc/stdlib.c.
use os.Prelude.{ℕ, zero, suc, ◌≡◌, refl}
use os.Machine.{out_of_fuel}
use os.Machine.Memory.{Memory, Prog}

-- `while(1);`, for as many rounds as the fuel says.
unfoldable abort : (rounds : ℕ) → Prog (Unit {0})
abort zero m = out_of_fuel
abort (suc n) m = abort n m

-- `abort` does not return, however long it runs.
abort-runs : (n : ℕ) (m : Memory) → abort n m ≡ out_of_fuel
unfolding abort
abort-runs zero m = refl
abort-runs (suc n) m = abort-runs n m
