-- ===== src/Tests/Format.antt =====
-- `vsnprintf` of "%s=%d" at 16, with the string "ab" at 32, into ten bytes at 64.
use os.Prelude.{
  ℕ, ◌≡◌, ◌<◌, ◌&&◌, ◌++◌, refl, some, none, List, [], ◌∷◌, arith, length, leb, ltb, false,
  if◌then◌else◌, inr,
}
use os.Prelude.Int.{pos, to_int}
use os.LibC.Decimal.{format_int}
use os.LibC.Format.{Arg, vsnprintf, string, int}
use os.LibC.Format.Fill.{Formats, end, plain, percent, conv_s, conv_d, fill}
use os.LibC.Format.Loop.{vsnprintf_lem}
use os.Machine.{ok}
use os.Machine.Memory.{Memory}
use os.Machine.Memory.Region.{CString, Holds, SameOutside}
use os.Machine.Memory.Store.{AllMapped}
use os.Tests.Image.{place}

abbrev memory : Memory
memory a =
    if leb 64 a && ltb a 74
    then some 1
    else place 16 (b'%' ∷ b's' ∷ b'=' ∷ b'%' ∷ b'd' ∷ 0 ∷ [])
        (place 32 (b'a' ∷ b'b' ∷ 0 ∷ []) (λ a. none)) a

abbrev fmt : List ℕ
fmt = b'%' ∷ b's' ∷ b'=' ∷ b'%' ∷ b'd' ∷ []

abbrev args : List Arg
args = string 32 ∷ int (pos 42) ∷ []

abbrev pieces : List (List ℕ)
pieces = [] ∷ (b'a' ∷ b'b' ∷ []) ∷ (b'=' ∷ []) ∷ [] ∷ (b'4' ∷ b'2' ∷ []) ∷ []

digits : format_int (pos 42) ≡ some (b'4' ∷ b'2' ∷ [])
unfolding format_int
digits = refl

ab_there : CString memory 32 (b'a' ∷ b'b' ∷ [])
ab_there = ground arith

fmt-Formats : Formats 9 64 10 memory false fmt args pieces
fmt-Formats = percent (
    conv_s ab_there (inr (omega arith)) (omega arith)
      (plain (omega arith) (percent (conv_d digits end))))

fmt_there : CString memory 16 fmt
fmt_there = ground arith

buffer_there : AllMapped memory 64 10
buffer_there a l u = (1, ground arith)

vsnprintf_lem_example :
    (m' : Memory) × (vsnprintf 9 9 64 10 16 args memory ≡ ok (to_int (length (fill 9 pieces))) m')
    × (length (fill 9 pieces) < 10)
    × Holds m' 64 (fill 9 pieces ++ 0 ∷ [])
    × SameOutside 64 10 memory m'
vsnprintf_lem_example =
    vsnprintf_lem 9 64 10 9 memory 16 fmt args pieces fmt-Formats fmt_there (inr (omega arith))
      buffer_there (omega arith) (omega arith) (omega arith)

-- The text is "ab=42".
filled : fill 9 pieces ≡ b'a' ∷ b'b' ∷ b'=' ∷ b'4' ∷ b'2' ∷ []
unfolding fill
filled = refl

-- In five bytes the digits do not fit.
filled_part : fill 4 pieces ≡ b'a' ∷ b'b' ∷ b'=' ∷ []
unfolding fill
filled_part = refl
