-- ===== src/Tests/Program.antt =====
-- echo as a program with the arguments "x", "ab" and "c", and the `os_write` that counts its calls.
use os.Prelude.{
  ℕ, ◌<◌, ◌≤◌, ◌⊎◌, ◌≡◌, ◌&&◌, refl, List, [], ◌∷◌, ◌++◌, some, none, arith, leb, ltb, inl, inr,
  if◌then◌else◌,
}
use os.Prelude.Int.{ℤ, pos}
use os.Apps.Main.Echo.{format_text, echoed, WritesApart, Written}
use os.Apps.Main.Program.{Places, echo_program, echo_program-Written}
use os.Kernel.Args.Copies.{Ready}
use os.Machine.{halted}
use os.Machine.Memory.{Memory, Ptr, Prog, write}
use os.Machine.Memory.Words.{load64}
use os.Tests.Echo.{os_write, next_count, elsewhere}
use os.Tests.Image.{place, zeros}

-- The argument vector at 16, its strings at 96, the format at 0x100; `_main` has its arrays at
-- 0x200 and 0x300, and `rprintf` at 0x400.
abbrev memory : Memory
memory a =
    if leb 0x200 a && ltb a 0x480
    then some 0
    else place 16 (96 ∷ zeros 7 ++ 98 ∷ zeros 7 ++ 101 ∷ zeros 15)
        (place 96 (b'x' ∷ 0 ∷ b'a' ∷ b'b' ∷ 0 ∷ b'c' ∷ 0 ∷ [])
          (place 0x100 (format_text ++ 0 ∷ []) (λ b. none)))
        a

abbrev last_arguments : List (List ℕ)
last_arguments = (b'a' ∷ b'b' ∷ []) ∷ (b'c' ∷ []) ∷ []

places : Places 32 200 8 0x400 0x100 0x200 0x300 16 4 96 102
places = record {
  copies = record {
    above = omega arith;
    short = omega arith;
    small = omega arith;
    size = omega arith;
    buf_argv = inl (omega arith);
    buf_args = inr (omega arith);
    buf_text = inr (omega arith);
    argv_args = inr (omega arith);
    argv_text = inr (omega arith);
  };
  writes = record {
    top = omega arith;
    text = inr (omega arith);
    entries = inr (omega arith);
    format_at = inr (omega arith);
    short = omega arith;
    fuel = omega arith;
  };
  format_buf = inr (omega arith);
  format_argv = inr (omega arith);
}

writes_apart : WritesApart os_write 200 8 0x400 0x100 0x300 16 0x200 0x280
writes_apart len m = (
  pos 0,
  write m 0x900 (next_count m),
  refl,
  record {
    text = λ a l u. elsewhere m (next_count m) a (omega arith);
    entries = λ a l u. elsewhere m (next_count m) a (omega arith);
    format_at = λ a l u. elsewhere m (next_count m) a (omega arith);
    array = λ a l u. elsewhere m (next_count m) a (omega arith);
  },
)

memory-Ready :
    Ready 32 0x200 0x280 0x300 16 16 4 96 102 places.copies memory 0 16 0x200
      ((b'x' ∷ []) ∷ last_arguments)
unfolding load64
memory-Ready = record {
  strings = (
    (96, refl, ground arith, omega arith, omega arith),
    (
      (98, refl, ground arith, omega arith, omega arith),
      ((101, refl, ground arith, omega arith, omega arith), tt),
    ),
  );
  end = refl;
  zeros = λ a l u. ground arith;
  array = λ a l u. (0, ground arith);
  room = omega arith;
  fits = omega arith;
  from = omega arith;
  at = omega arith;
  stop = omega arith;
}

-- It stops the program: what comes behind it is not reached.
abbrev os_exit : (exitcode : ℤ) → Prog (Unit {0})
os_exit code m = halted m

echo_program-Written_example :
    (m1 : Memory) × (m' : Memory) × (echo_program os_write 32 200 8 4 0x400 0x100 0x200 0x300 16 4
        96 102 places writes_apart os_exit memory
      ≡ os_exit (pos 0) m')
    × Written os_write 200 8 0x400 0x100 0x300 16 0x200 0x280 m1 (echoed last_arguments) m'
    × ((a : Ptr) → (a < 0x200) ⊎ (0x280 ≤ a) → (a < 0x300) ⊎ (0x380 ≤ a) → m1 a ≡ memory a)
echo_program-Written_example =
    echo_program-Written os_write 32 200 8 4 0x400 0x100 0x200 0x300 16 4 96 102 places writes_apart
      os_exit memory (b'x' ∷ []) last_arguments memory-Ready (omega arith) (ground arith)
      (λ a l u. (0, ground arith)) (omega arith, (omega arith, tt))
