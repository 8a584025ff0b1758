-- ===== src/Tests/LibC.antt =====
-- The functions of libc on a text at 16, "ab;c", a set at 32, ";", and a free stretch at 64.
use os.Prelude.{
  ℕ, ◌+◌, ◌≡◌, ◌↔◌, refl, Option, none, some, ◌-◌, ◌^◌, List, [], ◌∷◌, arith, replicate, true,
}
use os.Prelude.Int.{ℤ, pos, negsuc, is_zero}
use os.Machine.{Run, ok}
use os.Machine.Memory.{Memory, null}
use os.Machine.Memory.Region.{Holds, CString, Mapped, SameOutside}
use os.LibC.Decimal.{format_int}
use os.LibC.Decimal.Parse.{parse_int, parse_int-format_int}
use os.LibC.Format.{vsnprintf, int}
use os.LibC.Copy.{memcmp, strcpy}
use os.LibC.Copy.Fill.{memcmp-eq}
use os.LibC.Copy.Move.{strcpy_lem}
use os.LibC.Scan.{strcmp, strspn}
use os.LibC.Scan.Compare.{strcmp-eq}
use os.LibC.Scan.Span.{strspn-span}
use os.LibC.Token.{strtok_r}
use os.LibC.Token.Next.{Cut, strtok_r-none, strtok_r-some}
use os.LibC.Token.Words.{next_token}
use os.Tests.Image.{place}

abbrev text : List ℕ
text = b'a' ∷ b'b' ∷ b';' ∷ b'c' ∷ []

abbrev set : List ℕ
set = b';' ∷ []

abbrev only_set : List ℕ
only_set = b';' ∷ b';' ∷ []

abbrev memory : Memory
memory = place 16 (b'a' ∷ b'b' ∷ b';' ∷ b'c' ∷ 0 ∷ []) (
    place 32 (b';' ∷ 0 ∷ [])
      (place 48 (b';' ∷ b';' ∷ 0 ∷ []) (place 64 (9 ∷ 9 ∷ 9 ∷ 9 ∷ 9 ∷ 9 ∷ []) (λ a. none))))

text_there : CString memory 16 text
text_there = ground arith

set_there : CString memory 32 set
set_there = ground arith

only_set_there : CString memory 48 only_set
only_set_there = ground arith

free_there : Mapped memory 64 4
free_there = ((9, refl), ((9, refl), ((9, refl), ((9, refl), tt))))

strcmp-eq_example :
    (d : ℤ) × (strcmp 5 16 32 memory ≡ ok d memory) × ((is_zero d ≡ true) ↔ (text ≡ set))
strcmp-eq_example = strcmp-eq 5 16 32 text set (omega arith) text_there set_there

strspn-span_example : strspn 5 48 32 memory ≡ ok 2 memory
strspn-span_example =
    strspn-span 5 48 32 only_set set (omega arith) (omega arith) (omega arith) only_set_there
      set_there

strcpy_lem_example :
    (m' : Memory) × (strcpy 5 64 16 memory ≡ ok 64 m')
    × Holds m' 64 text
    × SameOutside 64 4 memory m'
    × (m' (64 + 4) ≡ memory (64 + 4))
strcpy_lem_example = strcpy_lem 5 64 16 text (omega arith) text_there free_there (omega arith)

memcmp-eq_example :
    (d : ℤ) × (memcmp 32 48 1 memory ≡ ok d memory) × ((is_zero d ≡ true) ↔ (set ≡ set))
memcmp-eq_example =
    memcmp-eq 32 48 set set refl (omega arith) (omega arith) (omega arith) (refl, tt) (refl, tt)

strtok_r-none_example : strtok_r 5 48 32 0 memory ≡ ok (null, 48 + 2) memory
unfolding next_token
strtok_r-none_example =
    strtok_r-none 5 memory 48 32 0 only_set set (omega arith) (omega arith) (omega arith)
      only_set_there set_there refl

-- The call goes on from the saved pointer.
strtok_r-some_example :
    Cut memory 16 text (b'a' ∷ b'b' ∷ []) (b'c' ∷ []) (strtok_r 5 null 32 16 memory)
unfolding next_token
strtok_r-some_example =
    strtok_r-some 5 memory null 32 16 text set (omega arith) (omega arith) (omega arith) text_there
      set_there refl

parse_int-format_int_example :
    (cs : List ℕ) × (format_int (negsuc 2017) ≡ some cs) × (parse_int cs ≡ negsuc 2017)
parse_int-format_int_example = parse_int-format_int (negsuc 2017) (omega arith) (omega arith)

minus_2018 : format_int (negsuc 2017) ≡ some (b'-' ∷ b'2' ∷ b'0' ∷ b'1' ∷ b'8' ∷ [])
unfolding format_int
minus_2018 = refl

-- The least number overflows.
least_int : format_int (negsuc (2 ^ 31 - 1)) ≡ none
unfolding format_int
least_int = refl

-- The format "%d." at 16 and a buffer at 64, of 10 bytes and of 4.
abbrev format_memory : Memory
format_memory = place 16 (b'%' ∷ b'd' ∷ b'.' ∷ 0 ∷ []) (place 64 (replicate 10 1) (λ a. none))

abbrev formatted : (size : ℕ) → Run Memory ℤ → List (Option ℕ) × ℤ
formatted size (ok n m) = (m 64 ∷ m 65 ∷ m 66 ∷ m 67 ∷ [], n)
formatted size _ = ([], pos size)

formatted_whole :
    formatted 10 (vsnprintf 9 9 64 10 16 (int (pos 42) ∷ []) format_memory)
    ≡ (some b'4' ∷ some b'2' ∷ some b'.' ∷ some 0 ∷ [], pos 3)
unfolding vsnprintf format_int
formatted_whole = refl

formatted_part :
    formatted 4 (vsnprintf 9 9 64 4 16 (int (pos 42) ∷ []) format_memory)
    ≡ (some b'4' ∷ some b'2' ∷ some 0 ∷ some 1 ∷ [], pos 2)
unfolding vsnprintf format_int
formatted_part = refl
