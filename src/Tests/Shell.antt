-- ===== src/Tests/Shell.antt =====
-- The shell's split of a command at 0x100, with `argv` at 0x200 and the delimiters at 0x300.
use os.Prelude.{
  ℕ, ◌+◌, ◌*◌, ◌≡◌, refl, inl, inr, some, none, List, [], ◌∷◌, length, arith, leb, ltb, ◌&&◌,
  if◌then◌else◌,
}
use os.Apps.Shell.{split_command}
use os.Machine.Memory.Strings.{Strings, SameOutsideBoth}
use os.Apps.Shell.Loop.{Layout}
use os.Apps.Shell.Split.{split_command_lem}
use os.Apps.Shell.Words.{words}
use os.Machine.{ok}
use os.Machine.Memory.{null, Memory}
use os.Machine.Memory.Region.{CString}
use os.Machine.Memory.Store.{AllMapped}
use os.Machine.Memory.Words.{load64}
use os.Tests.Image.{place}

abbrev blank : List ℕ
blank = b' ' ∷ []

abbrev command : List ℕ
command = b' ' ∷ b'l' ∷ b's' ∷ b' ' ∷ b' ' ∷ b'a' ∷ []

abbrev entries : Memory
entries a = if leb 0x200 a && ltb a 0x240 then some 1 else none

abbrev memory : Memory
memory =
    place 0x100 (b' ' ∷ b'l' ∷ b's' ∷ b' ' ∷ b' ' ∷ b'a' ∷ 0 ∷ [])
      (place 0x300 (b' ' ∷ 0 ∷ []) entries)

two_words : words blank command ≡ (b'l' ∷ b's' ∷ []) ∷ (b'a' ∷ []) ∷ []
unfolding words
two_words = refl

layout : Layout 9 0x200 0x300 blank 0x100 0x106 8
layout = record {
  not_null = omega arith;
  inner = omega arith;
  sep_text = inr (omega arith);
  array_text = inr (omega arith);
  array_sep = inl (omega arith);
  small = omega arith;
  above = omega arith;
}

entries-AllMapped : AllMapped memory 0x200 (8 * 8)
entries-AllMapped a l u = (1, ground arith)

command-there : CString memory 0x100 command
command-there = ground arith

blank-there : CString memory 0x300 blank
blank-there = ground arith

split_command_lem_example :
    (m' : Memory) × (split_command 9 9 0x200 0x300 0 0x100 memory
      ≡ ok (length (words blank command)) m')
    × Strings 0x100 0x106 m' 0x200 (words blank command)
    × (load64 (0x200 + 8 * length (words blank command)) m' ≡ ok null m')
    × SameOutsideBoth 0x100 6 0x200 (8 * 8) memory m'
split_command_lem_example =
    split_command_lem 9 0x200 0x300 blank 0x100 0x106 8 layout 9 memory 0x100 0 command
      command-there blank-there entries-AllMapped (omega arith) (omega arith) (omega arith)
      (omega arith) (omega arith)
