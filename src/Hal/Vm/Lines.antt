-- ===== src/Hal/Vm/Lines.antt =====
-- All lines of the host's mappings, and the bound of the table.
use mathlib.Core.List.{append-nil}
use os.Prelude.{
  ℕ, zero, suc, ◌<◌, some, none, ap, if◌then◌else◌, ◌+◌, ◌*◌, ◌&&◌, ◌||◌, not, Bool, true, false,
  List, [], ◌∷◌, ◌++◌, length, length-append, ◌≡◌, ◌≤◌, refl, arith, ◌∙◌,
}
use os.Prelude.Int.{ℤ}
use os.Kernel.Init.{Globals}
use os.Machine.{ok}
use os.Hal.Vm.{
  MmapEnt, Kmmap, MapsLine, Hole, procmaps_max, is_skipped, scan_lines, host_vm_init, prothole,
  scan_line, Maps,
}
use os.Hal.Vm.Holes.{
  mapped, gives, HasFlags, HasOneHole, IsSized, prot_of, scan_line-gives, added, mapped-append,
  added-added, length-added,
}

-- A line whose name, if it has one, fits the buffer: what `fscanf` assigns for it. Where it has no
-- name the variable keeps what it holds.
abbrev pub assign : (l v : MapsLine) → MapsLine
assign l v = record l { name = elim l.name [ [] ↦ v.name | (c ∷ cs) ↦ c ∷ cs ] }

-- From call `i` on, `fscanf` reads these lines and then finds the end of the file.
abbrev pub Reads : (f : Maps) (i : ℕ) → List MapsLine → Type 0
Reads f i [] = (v : MapsLine) → f.fscanf i v ≡ none
Reads f i (l ∷ ls) =
    (length l.name ≤ 63) × ((v : MapsLine) → f.fscanf i v ≡ some (assign l v)) × Reads f (suc i) ls

module _ (strcmp : (a b : List ℕ) → ℤ) (strstr : (haystack needle : List ℕ) → Bool) where
  -- The lines with the names that they are taken to have, where `v` holds the name of the line
  -- before them if that was skipped: a line without a name has that one.
  unfoldable pub as_named : (v : MapsLine) → List MapsLine → List MapsLine
  as_named v [] = []
  as_named v (l ∷ ls) =
      let l' = assign l v in
      l' ∷ as_named (if is_skipped strcmp strstr l' then l' else record l' { name = [] }) ls

  pub data AreSound (hs : List Hole) : List MapsLine → Type 0 where
    end : AreSound hs []
    skip :
        {l : MapsLine} {ls : List MapsLine}
        → is_skipped strcmp strstr l ≡ true
        → AreSound hs ls
        → AreSound hs (l ∷ ls)
    keep :
        {l : MapsLine} {ls : List MapsLine}
        → is_skipped strcmp strstr l ≡ false
        → HasFlags l
        → HasOneHole l hs
        → IsSized l.from l.to
        → AreSound hs ls
        → AreSound hs (l ∷ ls)

  length-as_named : (ls : List MapsLine) (v : MapsLine) → length (as_named v ls) ≡ length ls
  unfolding as_named
  length-as_named [] v = refl
  length-as_named (l ∷ ls) v = ap suc (length-as_named ls _)

  -- What the lines that are not skipped give an address.
  unfoldable pub some_gives : (a p : ℕ) → List Hole → List MapsLine → Bool
  some_gives a p hs [] = false
  some_gives a p hs (l ∷ ls) =
      (not (is_skipped strcmp strstr l) && gives a p l (prot_of l) hs) || some_gives a p hs ls

  Gives :
      (f : Maps) (n i : ℕ) (v : MapsLine) (hs : List Hole) (ls : List MapsLine) (k : Kmmap) → Type 0
  Gives f n i v hs ls k =
      (es : List MmapEnt) × (scan_lines strcmp strstr hs f n i v true k ≡ ok true (added k es))
      × (length es ≤ length ls * 2)
      × ((a p : ℕ) → mapped a p es ≡ some_gives a p hs ls)

  -- The name that stays in the buffer behind a line.
  abbrev left_by : MapsLine → MapsLine
  left_by l = if is_skipped strcmp strstr l then l else record l { name = [] }

  Gives-end :
      (f : Maps) (n i : ℕ) (v : MapsLine) (hs : List Hole) (k : Kmmap)
      → f.fscanf i v ≡ none
      → Gives f (suc n) i v hs [] k
  unfolding Gives scan_lines some_gives
  Gives-end f n i v hs k e =
      ([], ground (arith, e, append-nil k.procmaps), omega arith, λ a p. refl)

  Gives-skipped :
      (f : Maps) (n i : ℕ) (v : MapsLine) (hs : List Hole) (l : MapsLine) (ls : List MapsLine)
      (k : Kmmap)
      → f.fscanf i v ≡ some l
      → is_skipped strcmp strstr l ≡ true
      → Gives f n (suc i) l hs ls k
      → Gives f (suc n) i v hs (l ∷ ls) k
  unfolding Gives scan_lines some_gives
  Gives-skipped f n i v hs l ls k c s (es, e, short, m) =
      (es, ground (arith, c, s, e), omega arith, λ a p. m a p ∙ ground (arith, s))

  Gives-kept :
      (f : Maps) (n i : ℕ) (v : MapsLine) (hs : List Hole) (l : MapsLine) (ls : List MapsLine)
      (k : Kmmap) (xs : List MmapEnt)
      → f.fscanf i v ≡ some l
      → is_skipped strcmp strstr l ≡ false
      → scan_line hs l true k ≡ ok true (added k xs)
      → length xs ≤ 2
      → ((a p : ℕ) → mapped a p xs ≡ gives a p l (prot_of l) hs)
      → Gives f n (suc i) (record l { name = [] }) hs ls (added k xs)
      → Gives f (suc n) i v hs (l ∷ ls) k
  unfolding Gives scan_lines some_gives
  Gives-kept f n i v hs l ls k xs c s e₁ short₁ m₁ (es, e, short, m) = (
    xs ++ es,
    ground (arith, c, s, e₁, e, added-added k xs es),
    omega (arith, length-append xs es),
    λ a p. mapped-append a p xs es ∙ ground (arith, m a p, m₁ a p, s),
  )

  scan_lines-Gives :
      (f : Maps) (n i : ℕ) (v : MapsLine) (hs : List Hole) (ls : List MapsLine) (k : Kmmap)
      → Reads f i ls
      → length ls < n
      → AreSound hs (as_named v ls)
      → length k.procmaps + length ls * 2 ≤ procmaps_max
      → Gives f n i v hs (as_named v ls) k
  unfolding as_named
  scan_lines-Gives f zero i v hs ls k reads fuel sound room = absurd (omega arith)
  scan_lines-Gives f (suc n) i v hs [] k reads fuel sound room = Gives-end f n i v hs k (reads v)
  scan_lines-Gives f (suc n) i v hs (l ∷ ls) k (short, call, reads) fuel (skip s ps) room =
      Gives-skipped f n i v hs (assign l v) _ k (call v) s (
        rw s (
          scan_lines-Gives f n (suc i) (assign l v) hs ls k reads (omega arith) (rw s at ps)
            (omega arith)))
  scan_lines-Gives f (suc n) i v hs (l ∷ ls) k (short, call, reads) fuel (keep s flags one sized ps)
        room =
      let (xs, e, short, m) =
        scan_line-gives (assign l v) hs true k flags one sized (omega arith) in
      Gives-kept f n i v hs (assign l v) _ k xs (call v) s e short m (
        rw s (
          scan_lines-Gives f n (suc i) (record l { name = [] }) hs ls (added k xs) reads
            (omega arith) (rw s at ps) (omega (arith, length-added k xs))))

  -- Where `fscanf` reads these lines, whose names have at most 63 bytes, and every line that is not
  -- skipped has the letters of the proc manual, is shorter than 2^32 bytes and either meets no hole
  -- or has one inside of it and meets no other, and there are at most 64 lines and more calls than
  -- lines, the table keeps them all: it has the addresses of the lines that are not skipped,
  -- outside the holes, with the protection of their line, and no other. A line is skipped by its
  -- name, where a line without one behind a skipped line has the name of that.
  pub host_vm_init-maps :
      (text bss : Hole) (g : Globals) (f : Maps) (ls : List MapsLine)
      → Reads f 0 ls
      → length ls < f.calls
      → AreSound (prothole text bss g) (as_named (record f.first { name = [] }) ls)
      → length ls ≤ 64
      → (k : Kmmap) × (host_vm_init strcmp strstr text bss g f (record { procmaps = [] })
          ≡ ok true k)
        × (length k.procmaps ≤ procmaps_max)
        × ((a p : ℕ)
            → mapped a p k.procmaps
              ≡ some_gives a p (prothole text bss g) (as_named (record f.first { name = [] }) ls))
  unfolding host_vm_init Gives
  host_vm_init-maps text bss g f ls reads calls sound few =
      let empty : Kmmap = record { procmaps = [] } in
      let (es, e, short, m) =
        scan_lines-Gives f f.calls 0 (record f.first { name = [] }) (prothole text bss g) ls empty
          reads calls sound (omega arith) in
      (added empty es, e, omega (arith, length-as_named ls (record f.first { name = [] })), m)
