-- ===== src/Machine.antt =====
-- Runs of C code: a command maps a state to an outcome. `fault` is an access to unmapped memory or
-- other undefined behaviour, `halted` is a call of `hal_halt`, which does not return, and
-- `out_of_fuel` says that a loop was given too few rounds.
pub mod Memory
use os.Prelude.{ℕ, ◌≡◌, refl}

pub data Run (S A : Type 0) : Type 0 where
  ok : A → S → Run S A
  fault : Run S A
  out_of_fuel : Run S A
  halted : S → Run S A

abbrev pub Cmd : Type 0 → Type 0 → Type 0
Cmd S A = S → Run S A

abbrev pub pure : {S A : Type 0} → A → Cmd S A
pure = ok

module _ {S A B : Type 0} where
  abbrev pub and_then : Run S A → (A → Cmd S B) → Run S B
  and_then (ok a s) k = k a s
  and_then fault k = fault
  and_then out_of_fuel k = out_of_fuel
  and_then (halted s) k = halted s

  infixl 5 ◌>>=◌ ◌>>◌
  abbrev pub ◌>>=◌ : Cmd S A → (A → Cmd S B) → Cmd S B
  m >>= k = λ s. and_then (m s) k

  abbrev pub ◌>>◌ : Cmd S A → Cmd S B → Cmd S B
  m >> n = m >>= λ _. n

  pub >>=-ok :
      (m : Cmd S A) (k : A → Cmd S B) {s t : S} {a : A} {r : Run S B}
      → m s ≡ ok a t
      → k a t ≡ r
      → (m >>= k) s ≡ r
  >>=-ok m k {s} {t} {a} {r} e h = rw e h

  -- A command that returns has returned at each of its parts.
  pub >>=-eq-ok :
      (m : Cmd S A) (k : A → Cmd S B) {s s' : S} {b : B}
      → (m >>= k) s ≡ ok b s'
      → (a : A) × (t : S) × (m s ≡ ok a t) × (k a t ≡ ok b s')
  >>=-eq-ok m k {s} h = by_run (m s) refl h
    where
      by_run :
          {s' : S} {b : B} (r : Run S A)
          → m s ≡ r
          → and_then r k ≡ ok b s'
          → (a : A) × (t : S) × (m s ≡ ok a t) × (k a t ≡ ok b s')
      by_run (ok a t) e h = (a, t, e, h)
      by_run fault e h = cc
      by_run out_of_fuel e h = cc
      by_run (halted t) e h = cc
