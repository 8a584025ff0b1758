-- ===== src/Tests/Echo.antt =====
-- echo of "ab" and "c", with an `os_write` that counts its calls at 0x900.
use os.Prelude.{
  ℕ, ◌<◌, ◌+◌, ◌≡◌, ◌&&◌, refl, List, [], ◌∷◌, ◌++◌, some, none, arith, leb, ltb, inr,
  if◌then◌else◌,
}
use os.Prelude.Int.{ℤ, pos}
use os.Apps.Main.{echo_main}
use os.Apps.Main.Echo.{format_text, echoed, Layout, WritesApart, Ready, Written, echo_main-Written}
use os.Machine.{ok}
use os.Machine.Memory.{Memory, Ptr, Prog, write}
use os.Machine.Memory.Words.{load64}
use os.Tests.Image.{place, zeros}

abbrev arguments : List (List ℕ)
arguments = (b'a' ∷ b'b' ∷ []) ∷ (b'c' ∷ []) ∷ []

abbrev room : Memory
room a = if leb 0x400 a && ltb a 0x480 then some 0 else none

abbrev memory : Memory
memory = place 0x100 (format_text ++ 0 ∷ []) (
    place 0x200 (b'a' ∷ b'b' ∷ 0 ∷ b'c' ∷ 0 ∷ [])
      (place 0x308 (0 ∷ 2 ∷ zeros 6 ++ 3 ∷ 2 ∷ zeros 6) room))

abbrev pub next_count : Memory → ℕ
next_count m = elim (m 0x900) [ none ↦ 1 | some n ↦ n + 1 ]

abbrev pub os_write : (fd : ℤ) (buf : Ptr) (len : ℕ) → Prog ℤ
os_write fd buf len m = ok (pos 0) (write m 0x900 (next_count m))

places : Layout 32 8 0x400 0x100 0x300 3 0x200 0x204
places = record {
  top = omega arith;
  text = inr (omega arith);
  entries = inr (omega arith);
  format_at = inr (omega arith);
  short = omega arith;
  fuel = omega arith;
}

pub elsewhere : (m : Memory) (n a : ℕ) → a < 0x900 → write m 0x900 n a ≡ m a
elsewhere m n a h = ground arith

writes_apart : WritesApart os_write 32 8 0x400 0x100 0x300 3 0x200 0x204
writes_apart len m = (
  pos 0,
  write m 0x900 (next_count m),
  refl,
  record {
    text = λ a l u. elsewhere m (next_count m) a (omega arith);
    entries = λ a l u. elsewhere m (next_count m) a (omega arith);
    format_at = λ a l u. elsewhere m (next_count m) a (omega arith);
    array = λ a l u. elsewhere m (next_count m) a (omega arith);
  },
)

memory-Ready : Ready os_write 32 8 0x400 0x100 0x300 3 0x200 0x204 memory 1 arguments
unfolding load64
memory-Ready = record {
  strings = (
    (0x200, refl, ground arith, omega arith, omega arith),
    ((0x203, refl, ground arith, omega arith, omega arith), tt),
  );
  format_at = ground arith;
  array = λ a l u. (0, ground arith);
  few = omega arith;
  are_short = (omega arith, (omega arith, tt));
}

echo_main-Written_example :
    (m' : Memory) × (echo_main os_write 32 8 0x400 0x100 (pos 3) 0x300 memory ≡ ok (pos 0) m')
    × Written os_write 32 8 0x400 0x100 0x300 3 0x200 0x204 memory (echoed arguments) m'
echo_main-Written_example =
    echo_main-Written os_write 32 8 0x400 0x100 0x300 3 0x200 0x204 places writes_apart arguments
      memory memory-Ready
