-- ===== src/LibC/Decimal.antt =====
-- libc/stdio.c: the case `d` of `vsnprintf`, which writes a number's digits into `b[16]` from its
-- end.
pub mod Parse
use os.Prelude.{
  ℕ, zero, suc, ◌+◌, ◌*◌, ◌/◌, ◌%◌, ◌^◌, ◌==◌, ◌&&◌, not, List, [], ◌∷◌, Bool, Option, some, none,
  if◌then◌else◌,
}
use os.Prelude.Int.{ℤ, pos_part, neg_part, is_zero}

-- `p - b` at the start of the loop.
abbrev pub digits_room : ℕ
digits_room = 15

-- The loop over the digits of `d`, with `room` = `p - b`: the characters from `p + 1` on, and the
-- room that is left.
unfoldable pub put_digits : (room d : ℕ) → (o : List ℕ) → List ℕ × ℕ
put_digits zero d o = (o, zero)
put_digits (suc room) d o =
    if d == 0 then (o, suc room) else put_digits room (d / 10) ((48 + d % 10) ∷ o)

-- `if (p != b && m) { *p-- = '-'; }`
abbrev pub put_sign : (m : Bool) → List ℕ × ℕ → List ℕ
put_sign m r = if not (r.1 == 0) && m then 45 ∷ r.0 else r.0

-- The characters of an `int`. `none` is the overflow of `-d`, for the least number.
unfoldable pub format_int : (d : ℤ) → Option (List ℕ)
unfolding put_digits
format_int d =
    if is_zero d
    then some (48 ∷ [])
    else if neg_part d == 2 ^ 31
    then none
    else some
        (put_sign (not (neg_part d == 0)) (put_digits digits_room (pos_part d + neg_part d) []))
