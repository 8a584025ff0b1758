-- ===== src/Kernel/Align/Mask.antt =====
-- `align` rounds up to a multiple of a power of two, in 32 bits.
use Prim.Native.Nat.{
  ℕ, zero, suc, ◌+◌, ◌*◌, ◌/◌, ◌%◌, ◌≤◌, ◌<◌, ◌^◌, min, bit_and, digits, bit_and-bitwise,
}
use mathlib.Core.Path.{◌≡◌, refl, sym, ap, ◌∙◌}
use native.Mathlib.Nat.{
  div-add-mod, add-mul-mod_self_right, mod-eq_of_lt, mod-lt, pow-suc, pow-succ', pow-zero, le_refl,
  div-one, div-div-eq-div-mul, zero-div,
}
use native.Mathlib.Omega.{arith}
use os.Kernel.Align.{align}

-- `bit_and` as the library defines it, with fuel that bounds the left operand.
abbrev masked : (fuel a mask : ℕ) → ℕ
masked fuel a mask = digits (λ _. zero) min fuel a mask

-- `j` ones, and `k` zeros behind them.
ones : ℕ → ℕ
ones zero = 0
ones (suc j) = ones j * 2 + 1

high_ones : (j k : ℕ) → ℕ
unfolding ones
high_ones j zero = ones j
high_ones j (suc k) = high_ones j k * 2

halves_mod : (a n : ℕ) → 0 < n → a % (n * 2) ≡ a / 2 % n * 2 + a % 2
halves_mod a n h =
    ap (λ x. x % (n * 2)) parts
    ∙ add-mul-mod_self_right (a / 2 % n * 2 + a % 2) (a / 2 / n) (n * 2)
    ∙ mod-eq_of_lt (omega (arith, mod-lt (a / 2) h))
  where
    parts : a ≡ a / 2 % n * 2 + a % 2 + a / 2 / n * (n * 2)
    parts = omega (arith, div-add-mod (a / 2) n)

pow_pos : (k : ℕ) → 0 < 2 ^ k
pow_pos zero = omega arith
pow_pos (suc k) = omega (arith, pow_pos k, pow-suc 2 k)

half_odd : (h : ℕ) → (h * 2 + 1) / 2 ≡ h
half_odd h = omega arith

half_even : (h : ℕ) → h * 2 / 2 ≡ h
half_even h = omega arith

masked-zero : (fuel mask : ℕ) → masked fuel 0 mask ≡ 0
masked-zero zero mask = refl
masked-zero (suc fuel) mask = refl

masked-nothing : (fuel a : ℕ) → masked fuel a 0 ≡ 0
masked-nothing zero zero = refl
masked-nothing zero (suc a) = refl
masked-nothing (suc fuel) zero = refl
masked-nothing (suc fuel) (suc a) = omega (arith, masked-nothing fuel (suc a / 2))

-- Masking with such a number takes `j` bits and clears the `k` below.
masked-ones : (fuel j a : ℕ) → a ≤ fuel → masked fuel a (ones j) ≡ a % 2 ^ j
unfolding ones
masked-ones fuel zero a h = rw (pow-zero, masked-nothing fuel a) (omega arith)
masked-ones fuel (suc j) zero h =
    masked-zero fuel (ones (suc j)) ∙ sym (mod-eq_of_lt (pow_pos (suc j)))
masked-ones zero (suc j) (suc a) h = absurd (omega arith)
masked-ones (suc fuel) (suc j) (suc a) h =
    rw
      (
        pow-suc,
        halves_mod (suc a) (2 ^ j) (pow_pos j),
        half_odd,
        masked-ones fuel j (suc a / 2) (omega arith),
      )
      (omega arith)

masked-high_ones :
    (fuel j k a : ℕ) → a ≤ fuel → masked fuel a (high_ones j k) ≡ a / 2 ^ k % 2 ^ j * 2 ^ k
unfolding high_ones
masked-high_ones fuel j zero a h = rw (pow-zero, div-one, masked-ones fuel j a h) (omega arith)
masked-high_ones fuel j (suc k) zero h =
    masked-zero fuel (high_ones j (suc k))
    ∙ rw (zero-div (2 ^ suc k), mod-eq_of_lt (pow_pos j)) (omega arith)
masked-high_ones zero j (suc k) (suc a) h = absurd (omega arith)
masked-high_ones (suc fuel) j (suc k) (suc a) h =
    rw
      (
        pow-succ' 2 k,
        ← div-div-eq-div-mul (suc a) 2 (2 ^ k),
        half_even,
        masked-high_ones fuel j k (suc a / 2) (omega arith),
      )
      (omega arith)

bit_and-high_ones : (j k a : ℕ) → bit_and a (high_ones j k) ≡ a / 2 ^ k % 2 ^ j * 2 ^ k
bit_and-high_ones j k a = bit_and-bitwise a (high_ones j k) ∙ masked-high_ones a j k a (le_refl a)

-- `align` of an even boundary, the mask 1: rounding up to even in 32 bits.
pub align_even : (v : ℕ) → align v 1 ≡ (v + 1) % 2 ^ 32 / 2 * 2
unfolding align high_ones
align_even v = bit_and-high_ones 31 1 ((v + 1) % 2 ^ 64) ∙ omega arith

-- `align` with the mask 0xfff adds the mask, keeps the low 32 bits of the sum, and rounds them down
-- to a multiple of 2^12.
pub align_page : (v : ℕ) → align v 0xfff ≡ (v + 0xfff) % 2 ^ 32 / 2 ^ 12 * 2 ^ 12
unfolding align high_ones
align_page v = bit_and-high_ones 20 12 ((v + 0xfff) % 2 ^ 64) ∙ omega arith
