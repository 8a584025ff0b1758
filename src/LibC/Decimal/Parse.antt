-- ===== src/LibC/Decimal/Parse.antt =====
-- The characters of a number, read back.
use native.Mathlib.Nat.{pow-suc, pow-zero, pow-le-pow_right}
use os.Prelude.{
  ℕ, zero, suc, ◌+◌, ◌-◌, ◌*◌, ◌/◌, ◌%◌, ◌^◌, ◌<◌, ◌≤◌, ◌≡◌, ◌==◌, ◌&&◌, ltb, leb, if◌then◌else◌,
  List, [], ◌∷◌, Bool, true, false, some, refl, arith, ◌∙◌, ap, sym, not, ◌⊎◌, inl, inr,
}
use os.Prelude.Int.{ℤ, pos, negsuc, sub_ℕ, pos_part, neg_part, is_zero}
use os.LibC.Decimal.{digits_room, put_digits, put_sign, format_int}

-- The value of digits behind the value `v`.
unfoldable pub digits_value : List ℕ → (v : ℕ) → ℕ
digits_value [] v = v
digits_value (c ∷ cs) v = digits_value cs (v * 10 + (c - 48))

unfoldable pub parse_int : List ℕ → ℤ
unfolding digits_value
parse_int [] = pos 0
parse_int (c ∷ cs) = if c == 45 then sub_ℕ 0 (digits_value cs 0) else pos (digits_value (c ∷ cs) 0)

are_digits : List ℕ → Bool
are_digits [] = true
are_digits (c ∷ cs) = leb 48 c && ltb c 58 && are_digits cs

put_digits-are_digits :
    (room d : ℕ) (o : List ℕ) → are_digits o ≡ true → are_digits (put_digits room d o).0 ≡ true
unfolding put_digits are_digits
put_digits-are_digits zero d o h = h
put_digits-are_digits (suc room) d o h =
    ground (arith, put_digits-are_digits room (d / 10) ((48 + d % 10) ∷ o) (ground arith))

the_zero : (d : ℕ) → d < 10 ^ 0 → 0 ≡ d
the_zero d h = omega (arith, pow-zero 10)

digits_value-put_digits :
    (room d : ℕ) (o : List ℕ)
    → d < 10 ^ room
    → digits_value (put_digits room d o).0 0 ≡ digits_value o d
unfolding put_digits digits_value
digits_value-put_digits zero d o h = ap (digits_value o) (the_zero d h)
digits_value-put_digits (suc room) d o h = ground (
  arith,
  digits_value-put_digits room (d / 10) ((48 + d % 10) ∷ o) (omega (arith, pow-suc 10 room)),
)

-- `k` digits leave the rest of the room.
room_left : (room k d : ℕ) (o : List ℕ) → d < 10 ^ k → k ≤ room → room ≤ (put_digits room d o).1 + k
unfolding put_digits
room_left zero k d o h le = omega arith
room_left (suc room) zero d o h le = ground (arith, the_zero d h)
room_left (suc room) (suc k) d o h le = ground (
  arith,
  room_left room k (d / 10) ((48 + d % 10) ∷ o) (omega (arith, pow-suc 10 k)) (omega arith),
)

-- The digits of a positive number below 10^10, with their value and the room that they leave.
written-digits :
    (room d : ℕ)
    → d < 10 ^ 10
    → 10 < room
    → (are_digits (put_digits room d []).0 ≡ true)
      × (digits_value (put_digits room d []).0 0 ≡ d)
      × (0 < (put_digits room d []).1)
unfolding are_digits digits_value
written-digits room d h big = (
  put_digits-are_digits room d [] refl,
  digits_value-put_digits room d []
      (omega (arith, h, pow-le-pow_right {n = 10} (omega arith) {i = 10} {j = room} (omega arith))),
  omega (arith, room_left room 10 d [] h (omega arith)),
)

parse_int-digits : (cs : List ℕ) → are_digits cs ≡ true → parse_int cs ≡ pos (digits_value cs 0)
unfolding parse_int are_digits digits_value
parse_int-digits [] h = refl
parse_int-digits (c ∷ cs) h = ground arith

format_int-else :
    (d : ℤ)
    → is_zero d ≡ false
    → (neg_part d == 2 ^ 31) ≡ false
    → format_int d
      ≡ some
          (put_sign (not (neg_part d == 0)) (put_digits digits_room (pos_part d + neg_part d) []))
unfolding format_int
format_int-else d e₁ e₂ = rw (e₁, e₂) refl

unsigned : (r : List ℕ × ℕ) → put_sign (not (0 == 0)) r ≡ r.0
unsigned r = ground arith

parse_int-signed :
    (d : ℤ) (r : List ℕ × ℕ)
    → are_digits r.0 ≡ true
    → digits_value r.0 0 ≡ pos_part d + neg_part d
    → 0 < r.1
    → parse_int (put_sign (not (neg_part d == 0)) r) ≡ d
unfolding parse_int
parse_int-signed (pos n) r all value left =
    ap parse_int (unsigned r) ∙ parse_int-digits r.0 all ∙ ap pos (value ∙ omega arith)
parse_int-signed (negsuc n) r all value left = ground arith

zero_or_not :
    (d : ℤ)
    → neg_part d < 2 ^ 31
    → (d ≡ pos 0) ⊎ ((is_zero d ≡ false) × ((neg_part d == 2 ^ 31) ≡ false))
zero_or_not (pos zero) h = inl refl
zero_or_not (pos (suc n)) h = inr (ground arith, ground arith)
zero_or_not (negsuc n) h = inr (ground arith, ground arith)

format_zero : (format_int (pos 0) ≡ some (48 ∷ [])) × (parse_int (48 ∷ []) ≡ pos 0)
unfolding format_int parse_int digits_value
format_zero = (refl, refl)

-- The characters of any `int` but the least are produced, and read as a decimal they give it back.
pub parse_int-format_int :
    (d : ℤ)
    → pos_part d < 2 ^ 31
    → neg_part d < 2 ^ 31
    → (cs : List ℕ) × (format_int d ≡ some cs) × (parse_int cs ≡ d)
parse_int-format_int d hp hn = elim (zero_or_not d hn) [
  | inl e ↦ (48 ∷ [], ap format_int e ∙ format_zero.0, format_zero.1 ∙ sym e)
  | inr (e₁, e₂) ↦
      let (all, value, left) =
        written-digits digits_room (pos_part d + neg_part d) (omega arith) (omega arith) in
      (_, format_int-else d e₁ e₂, parse_int-signed d _ all value left)
]
