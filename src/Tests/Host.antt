-- ===== src/Tests/Host.antt =====
-- The host's mappings and page protections.
use os.Prelude.{
  ℕ, ◌+◌, ◌*◌, ◌/◌, ◌%◌, ◌==◌, ◌&&◌, ◌≤◌, ◌<◌, ◌≡◌, ◌⊎◌, inl, inr, Bool, true, false, List, [], ◌∷◌,
  length, refl, arith, none, get_elem?, leb, ltb, if◌then◌else◌, some, replicate, ◌||◌,
}
use os.Prelude.Int.{ℤ, pos}
use os.Kernel.Exn.{Exndes, exn_do}
use os.Kernel.Process.{Proc}
use os.Machine.{Cmd, ok}
use os.Machine.Memory.{Ptr}
use os.Hal.Vm.{Kmmap, MapsLine, Maps, Hole, host_vm_init, prothole, procmaps_max, stack_name}
use os.Hal.Vm.Bound.{StaysIn, host_vm_init-StaysIn}
use os.Hal.Vm.Holes.{mapped, apart, inside, nowhere, and_apart, end}
use os.Hal.Vm.Lines
use os.Hal.Vm.Lines.{AreSound, keep, skip, some_gives, Reads, as_named, assign, host_vm_init-maps}
use os.Hal.Protect.{Mprotect, page, host_vm_prot, sighnd}
use os.Hal.Protect.Isolate
use os.Hal.Protect.Isolate.{
  AllPages, and_pages, HasPages, pages, process_prot, host_vm_prot-restore, host_vm_prot-process,
}
use os.Hal.Protect.Signal.{sighnd-process}
use os.Tests.Image.{globals, proc}

-- The host's text functions on lists of characters.
abbrev same : List ℕ → List ℕ → Bool
same [] [] = true
same [] (y ∷ ys) = false
same (x ∷ xs) [] = false
same (x ∷ xs) (y ∷ ys) = (x == y) && same xs ys

abbrev pub strcmp : List ℕ → List ℕ → ℤ
strcmp a b = if same a b then pos 0 else pos 1

abbrev starts : List ℕ → List ℕ → Bool
starts s [] = true
starts [] (y ∷ ys) = false
starts (x ∷ xs) (y ∷ ys) = (x == y) && starts xs ys

abbrev pub strstr : List ℕ → List ℕ → Bool
strstr [] needle = starts [] needle
strstr (x ∷ xs) needle = starts (x ∷ xs) needle || strstr xs needle

-- A code line with a hole, a data line with none, and the stack.
abbrev code_line : MapsLine
code_line = record { from = 0x400000; to = 0x408000; r = 114; w = 45; x = 120; name = [] }

abbrev data_line : MapsLine
data_line = record { from = 0x600000; to = 0x601000; r = 114; w = 119; x = 45; name = [] }

abbrev stack_line : MapsLine
stack_line = record { from = 0x700000; to = 0x702000; r = 114; w = 119; x = 45; name = stack_name }

-- The line behind the stack's has no name.
abbrev last_line : MapsLine
last_line = record { from = 0x800000; to = 0x801000; r = 114; w = 45; x = 120; name = [] }

abbrev lines : List MapsLine
lines = code_line ∷ data_line ∷ stack_line ∷ last_line ∷ []

abbrev pub maps_lines : Maps
maps_lines = record {
  fscanf = λ i v. elim (get_elem? lines i) [ none ↦ none | some l ↦ some (assign l v) ];
  first = code_line;
  calls = 5;
}

lines-Reads : Reads maps_lines 0 lines
lines-Reads = (
  omega arith,
  λ v. refl,
  (omega arith, λ v. refl, (omega arith, λ v. refl, (omega arith, λ v. refl, λ v. refl))),
)

-- It is taken for the stack.
abbrev named_lines : List MapsLine
named_lines = as_named strcmp strstr code_line lines

abbrev pub text_hole : Hole
text_hole = record { from = 0x402000; to = 0x403000 }

abbrev pub bss_hole : Hole
bss_hole = record { from = 0x501000; to = 0x506000 }

lines-AreSound : AreSound strcmp strstr (prothole text_hole bss_hole globals) named_lines
unfolding as_named
lines-AreSound =
    keep refl (refl, refl, refl)
      (inside (omega arith, omega arith, omega arith)
        (and_apart (omega arith, inr (omega arith))
          (and_apart (omega arith, inl (omega arith)) end)))
      (omega arith, omega arith, omega arith)
      (keep refl (refl, refl, refl)
        (apart (omega arith, inl (omega arith))
          (apart (omega arith, inl (omega arith)) (apart (omega arith, inl (omega arith)) nowhere)))
        (omega arith, omega arith, omega arith) (skip refl (skip refl Lines.end)))

host_vm_init-maps_example :
    (k : Kmmap) × (host_vm_init strcmp strstr text_hole bss_hole globals maps_lines
        (record { procmaps = [] })
      ≡ ok true k)
    × (length k.procmaps ≤ procmaps_max)
    × ((a p : ℕ)
        → mapped a p k.procmaps
          ≡ some_gives strcmp strstr a p (prothole text_hole bss_hole globals) named_lines)
host_vm_init-maps_example =
    host_vm_init-maps strcmp strstr text_hole bss_hole globals maps_lines lines lines-Reads
      (omega arith) lines-AreSound (omega arith)

host_vm_init-StaysIn_example :
    StaysIn
      (host_vm_init strcmp strstr text_hole bss_hole globals maps_lines (record { procmaps = [] }))
host_vm_init-StaysIn_example =
    host_vm_init-StaysIn strcmp strstr text_hole bss_hole globals maps_lines 4 (λ v. refl)
      (omega arith)

-- Protections by address, set in whole pages from the start of one.
abbrev whole_pages : ℕ → ℕ
whole_pages size = (size + 0xfff) / 0x1000 * 0x1000

abbrev set_prot : (addr size prot : ℕ) → (ℕ → ℕ) → ℕ → ℕ
set_prot addr size prot s a =
    if (addr % page == 0) && leb addr a && ltb a (addr + whole_pages size) then prot else s a

pub set_prot-inside :
    (addr size prot : ℕ) (s : ℕ → ℕ) (a : ℕ)
    → addr % page ≡ 0
    → addr ≤ a
    → a < addr + size
    → set_prot addr size prot s a ≡ prot
set_prot-inside addr size prot s a al lo hi = ground arith

pub set_prot-outside :
    (addr size prot : ℕ) (s : ℕ → ℕ) (a : ℕ)
    → size % page ≡ 0
    → (a < addr) ⊎ (addr + size ≤ a)
    → set_prot addr size prot s a ≡ s a
set_prot-outside addr size prot s a z (inl h) = ground arith
set_prot-outside addr size prot s a z (inr h) = ground arith

abbrev pub mprotect : Mprotect
mprotect = record {
  State = ℕ → ℕ;
  sys_mprotect = set_prot;
  prot_at = λ s a. s a;
  IsMapped = λ addr size s. addr + size ≤ 0x800000;
  sys_mprotect-IsMapped = λ addr size prot s h. h;
  prot_at-inside = λ addr size prot s a h al lo hi. set_prot-inside addr size prot s a al lo hi;
  prot_at-outside = set_prot-outside;
}

abbrev pub table : Kmmap
table = record {
  procmaps =
      record { from = 0x400000; sz = 0x2000; prot = 5 }
      ∷ record { from = 0x403000; sz = 0x5000; prot = 5 }
      ∷ [];
}

abbrev pub running : Proc
running = record proc { load = 0x10000; loadsz = pos 0x1000; stack = 0x12000; stacksz = 0x2000 }

abbrev unprotected : ℕ → ℕ
unprotected a = 3

table-AllPages : AllPages mprotect unprotected table.procmaps
table-AllPages =
    and_pages (omega arith, omega arith, omega arith)
      (and_pages (omega arith, omega arith, omega arith) Isolate.end)

running-HasPages : HasPages mprotect unprotected running
running-HasPages =
    pages (omega arith, omega arith, omega arith) (omega arith, omega arith, omega arith)

only_protection : (q : ℕ) → mapped 0x404000 q table.procmaps ≡ true → q ≡ 5
only_protection q h = ground arith

host_vm_prot-restore_example : host_vm_prot mprotect true table running unprotected 0x404000 ≡ 5
host_vm_prot-restore_example =
    host_vm_prot-restore mprotect table running unprotected 0x404000 5 table-AllPages refl
      only_protection

host_vm_prot-process_example :
    host_vm_prot mprotect false table running unprotected 0x404000
    ≡ process_prot mprotect 0x404000 table running 3
host_vm_prot-process_example =
    host_vm_prot-process mprotect table running unprotected table-AllPages running-HasPages 0x404000

-- A kernel that counts its signals, and its only process.
abbrev count : ℕ → ℤ → ℕ → Cmd ℕ Bool
count h exn arg s = ok true (s + h)

abbrev current : ℕ → Ptr × Proc
current s = (0x8000, running)

abbrev handlers : List (Exndes ℕ)
handlers = replicate 64 (record { hnd = some 1; arg = 0 })

handled_lem : exn_do count handlers (pos 11) 4 ≡ ok tt 5
unfolding exn_do
handled_lem = refl

sighnd-process_example :
    (s' : ℕ → ℕ) × (sighnd mprotect count current table handlers (pos 11) (4, unprotected)
      ≡ ok tt (5, s'))
    × ((a : ℕ) → s' a ≡ process_prot mprotect a table running 3)
sighnd-process_example =
    sighnd-process mprotect count current table handlers (pos 11) 4 5 unprotected table-AllPages
      running-HasPages (omega arith) handled_lem
