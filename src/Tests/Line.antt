-- ===== src/Tests/Line.antt =====
-- The shell on the line "ls a;b", with its buffer at 0x100, `argv` at 0x200, and the delimiters at
-- 0xb00 and 0xb10.
use os.Prelude.{
  ℕ, ◌≡◌, refl, inl, inr, some, none, List, [], ◌∷◌, arith, leb, ltb, ◌&&◌, if◌then◌else◌,
}
use os.Prelude.Int.{pos}
use os.Apps.Shell.{Os, Frame, main_loop}
use os.Apps.Shell.Commands.{Executed, Places, RunsApart, commands}
use os.Apps.Shell.Round.{Line, main_loop-Executed}
use os.Apps.Shell.Words.{words}
use os.LibC.Copy.Move.{stored}
use os.LibC.Format.Step.{AllMapped-stored}
use os.Machine.{ok}
use os.Machine.Memory.{Memory}
use os.Machine.Memory.Store.{AllMapped}
use os.Tests.Image.{place}

abbrev ends : List ℕ
ends = 10 ∷ b';' ∷ []

abbrev blanks : List ℕ
blanks = b' ' ∷ []

abbrev line : List ℕ
line = b'l' ∷ b's' ∷ b' ' ∷ b'a' ∷ b';' ∷ b'b' ∷ []

commands-line :
    commands ends blanks line ≡ ((b'l' ∷ b's' ∷ []) ∷ (b'a' ∷ []) ∷ []) ∷ ((b'b' ∷ []) ∷ []) ∷ []
unfolding commands words
commands-line = refl

-- A blank command ends the line.
blank_commands :
    commands ends blanks (b'a' ∷ b';' ∷ b' ' ∷ b';' ∷ b'b' ∷ []) ≡ ((b'a' ∷ []) ∷ []) ∷ []
unfolding commands words
blank_commands = refl

abbrev calls : Os
calls = record {
  os_read = λ buffer size m. ok (pos 6) (stored m buffer line);
  os_run = λ argv exitcode m. ok (pos 0) m;
  rprintf = λ format m. ok tt m;
}

abbrev frame : Frame
frame = record {
  buffer = 0x100;
  argv = 0x200;
  comsep = 0xb00;
  argsep = 0xb10;
  prompt = 0xb20;
  newline = 0xb30;
  unset = 0;
}

abbrev memory : Memory
memory a =
    if leb 0x100 a && ltb a 0xa00
    then some 1
    else place 0xb00 (10 ∷ b';' ∷ 0 ∷ []) (place 0xb10 (b' ' ∷ 0 ∷ []) (λ b. none)) a

arrays_there : AllMapped memory 0x100 0x900
arrays_there a l u = (1, ground arith)

places : Places calls frame ends blanks 0x100 0x1ff 256 256 256
places = record {
  words_at = record {
    not_null = omega arith;
    inner = omega arith;
    sep_text = inr (omega arith);
    array_text = inr (omega arith);
    array_sep = inl (omega arith);
    small = omega arith;
    above = omega arith;
  };
  not_null = omega arith;
  inner = omega arith;
  com_text = inr (omega arith);
  com_array = inl (omega arith);
  short_f = omega arith;
  short_k = omega arith;
  short_cap = omega arith;
}

runs_apart : RunsApart calls frame ends blanks 0x100 0x1ff 256
runs_apart m ws args = (
  pos 0,
  m,
  refl,
  record {
    text = λ a l u. refl;
    entries = λ a l u. refl;
    com_sep = λ a l u. refl;
    arg_sep = λ a l u. refl;
  },
)

abbrev filled : Memory
filled = stored memory 0x100 line

filled-Line : Line calls frame ends blanks 0x1ff filled line
filled-Line = record {
  text = ground arith;
  no_nul = omega arith;
  some_bytes = omega arith;
  few_bytes = omega arith;
  mapped = λ a l u.
      AllMapped-stored memory 0x100 line 0x100 0x900 arrays_there a (omega arith) (omega arith);
  arg_sep = ground arith;
  com_sep = ground arith;
  array = λ a l u.
      AllMapped-stored memory 0x100 line 0x100 0x900 arrays_there a (omega arith) (omega arith);
}

main_loop-Executed_example :
    (m' : Memory) × (main_loop calls frame 256 256 4 memory ≡ main_loop calls frame 256 256 3 m')
    × Executed calls frame ends blanks 0x100 0x1ff 256 filled (commands ends blanks line) m'
main_loop-Executed_example =
    main_loop-Executed calls frame ends blanks 0x1ff 256 256 places runs_apart refl 3 memory memory
      filled line refl refl filled-Line
