-- ===== src/LibC/Format.antt =====
-- libc/stdio.c: `vsnprintf`. The arguments are a list; one of another type than its conversion
-- reads, or none, is undefined. The local array `b` is the list of the characters in it.
pub mod Fill
pub mod Loop
pub mod Step
use os.Prelude.{
  ℕ, zero, suc, ◌+◌, ◌-◌, ◌%◌, ◌^◌, ◌==◌, ltb, not, List, [], ◌∷◌, length, ◌&&◌, Bool, false, some,
  none, if◌then◌else◌,
}
use os.Prelude.Int.{ℤ, pos, to_int, to_size}
use os.Machine.{fault, out_of_fuel, pure, ◌>>=◌, ◌>>◌}
use os.Machine.Memory.{Ptr, Prog, load8, store8}
use os.LibC.Copy.{memcpy, to_byte}
use os.LibC.Decimal.{format_int}
use os.LibC.Scan.{strlen}

pub data Arg : Type 0 where
  string : Ptr → Arg
  int : ℤ → Arg

-- `o` and `os`: characters in `b`, or a string in memory with its length.
pub data Piece : Type 0 where
  local_array : List ℕ → Piece
  in_memory : (o : Ptr) → (os : ℕ) → Piece

abbrev pub piece_size : Piece → ℕ
piece_size (local_array o) = length o
piece_size (in_memory o os) = os

unfoldable pub store_all : Ptr → List ℕ → Prog (Unit {0})
store_all p [] = pure tt
store_all p (c ∷ cs) = do store8 p c; store_all (suc p) cs

-- `memcpy(p, o, os);`
unfoldable pub copy_piece : (p : Ptr) → Piece → Prog (Unit {0})
unfolding store_all
copy_piece p (local_array o) = store_all p o
copy_piece p (in_memory o os) = do memcpy p o os; pure tt

-- The conversions, with `f` the fuel of `strlen`.
abbrev pub convert_s : (f : ℕ) → List Arg → Prog (Piece × List Arg)
convert_s f (string o ∷ ap) = do os ← strlen f o; pure (in_memory o os, ap)
convert_s f _ = λ m. fault

abbrev pub convert_d : List Arg → Prog (Piece × List Arg)
convert_d (int d ∷ ap) = elim (format_int d) [
  | none ↦ λ m. fault
  | some o ↦ pure (local_array o, ap)
]
convert_d _ = λ m. fault

abbrev pub convert_c : List Arg → Prog (Piece × List Arg)
convert_c (int c ∷ ap) = pure (local_array (to_byte c ∷ []), ap)
convert_c _ = λ m. fault

-- The character `c` behind a `%`, where `spec` is true, or by itself.
unfoldable pub convert : (f : ℕ) (spec : Bool) (c : ℕ) → List Arg → Prog (Piece × List Arg)
convert f spec c ap =
    if not spec
    then pure (local_array (if c == b'%' then [] else c ∷ []), ap)
    else if c == b's'
    then convert_s f ap
    else if c == b'd'
    then convert_d ap
    else if c == b'c'
    then convert_c ap
    else pure (local_array (c ∷ []), ap)

-- `str + size - p - 1`, as the unsigned number that it is compared as.
abbrev pub room_behind : (str : Ptr) (size : ℕ) (p : Ptr) → ℕ
room_behind str size p = (str + size + 2 ^ 64 - p - 1) % 2 ^ 64

-- The result is `p`. The fuel counts the characters of the format.
unfoldable pub format_loop :
    (f : ℕ)
    → ℕ
    → (str : Ptr) (size : ℕ) (format : Ptr) (spec : Bool) (p : Ptr) → List Arg
    → Prog Ptr
unfolding convert copy_piece
format_loop f zero str size format spec p ap = λ m. out_of_fuel
format_loop f (suc k) str size format spec p ap = do
  c ← load8 format
  if c == 0 then pure p else do
    piece ← convert f spec c ap
    if not (ltb (piece_size piece.0) (room_behind str size p)) then pure p else do
      copy_piece p piece.0
      format_loop f k str size (suc format) (not spec && (c == b'%')) (p + piece_size piece.0)
          piece.1

-- The difference of the pointers is returned as an `int`.
unfoldable pub vsnprintf : (f k : ℕ) (str : Ptr) (size : ℕ) (format : Ptr) → List Arg → Prog ℤ
unfolding format_loop
vsnprintf f k str size format ap = do
  p ← format_loop f k str size format false str ap
  store8 p 0
  pure (to_int (p - str))

-- The arguments that are passed are `ap`.
unfoldable pub snprintf : (f k : ℕ) (str : Ptr) (size : ℕ) (format : Ptr) → List Arg → Prog ℤ
unfolding vsnprintf
snprintf f k str size format ap = vsnprintf f k str size format ap

-- `msg` is the local array, of 128 bytes, and `os_write` the system call, which takes the `int` as
-- a `size_t`.
unfoldable pub rprintf :
    (os_write : (fd : ℤ) (buf : Ptr) (len : ℕ) → Prog ℤ) (f k : ℕ) (msg format : Ptr)
    → List Arg
    → Prog ℤ
unfolding vsnprintf
rprintf os_write f k msg format ap = do
  ret ← vsnprintf f k msg 128 format ap
  os_write (pos 1) msg (to_size ret)
