-- ===== src/Hal/Vm/Bound.antt =====
-- The bound of the table of mappings.
use native.Mathlib.Nat.{eq-or-lt_of_le}
use os.Prelude.{
  ℕ, zero, suc, ◌+◌, ◌<◌, ◌≡◌, refl, Option, some, none, inl, inr, ◌∙◌, sym, ap, ◌≤◌, Bool, true,
  false, List, [], ◌∷◌, length, length-append, arith, if◌then◌else◌, not, ltb,
}
use os.Prelude.Int.{ℤ}
use os.Kernel.Init.{Globals}
use os.Machine.{Run, Cmd, ok, fault, out_of_fuel, halted, and_then, ◌>>=◌}
use os.Hal.Vm.{
  Kmmap, MapsLine, Hole, procmaps_max, add_procmap, add_if, scan_holes, scan_line, scan_lines,
  host_vm_init, Maps, scan_read, is_skipped, chprot2prot, map_entry, prothole,
}

-- A run that stays in the array, and ends or fails an assertion.
unfoldable pub StaysIn : {A : Type 0} → Run Kmmap A → Type 0
StaysIn (ok a k) = length k.procmaps ≤ procmaps_max
StaysIn fault = ⊥
StaysIn out_of_fuel = ⊥
StaysIn (halted k) = length k.procmaps ≤ procmaps_max

-- A command that stays in the array where it starts there.
Keeps : {A : Type 0} → Cmd Kmmap A → Type 0
Keeps c = (k : Kmmap) → length k.procmaps ≤ procmaps_max → StaysIn (c k)

and_then-StaysIn :
    {A B : Type 0} (r : Run Kmmap A) (f : A → Cmd Kmmap B)
    → StaysIn r
    → ((a : A) → Keeps (f a))
    → StaysIn (and_then r f)
unfolding Keeps StaysIn
and_then-StaysIn (ok a k) f h hf = hf a k h
and_then-StaysIn fault f h hf = h
and_then-StaysIn out_of_fuel f h hf = h
and_then-StaysIn (halted k) f h hf = h

and_then-Keeps :
    {A B : Type 0} (c : Cmd Kmmap A) (f : A → Cmd Kmmap B)
    → Keeps c
    → ((a : A) → Keeps (f a))
    → Keeps (c >>= f)
unfolding Keeps
and_then-Keeps c f hc hf k h = and_then-StaysIn (c k) f (hc k h) hf

if-Keeps :
    {A : Type 0} (b : Bool) (c d : Cmd Kmmap A) → Keeps c → Keeps d → Keeps (if b then c else d)
if-Keeps true c d hc hd = hc
if-Keeps false c d hc hd = hd

add_procmap-Keeps : (from to prot : ℕ) → Keeps (add_procmap from to prot)
unfolding Keeps StaysIn add_procmap
add_procmap-Keeps from to prot k h =
    ground (arith, length-append k.procmaps (map_entry from to prot ∷ []))

pure-Keeps : {A : Type 0} (a : A) → Keeps (ok a)
unfolding Keeps StaysIn
pure-Keeps a k h = h

halted-Keeps : (A : Type 0) → Keeps {A = A} halted
unfolding Keeps StaysIn
halted-Keeps A k h = h

add_if-Keeps : (c : Bool) (from to prot : ℕ) (kept : Bool) → Keeps (add_if c from to prot kept)
unfolding add_if
add_if-Keeps c from to prot kept =
    if-Keeps c _ _
      (and_then-Keeps (add_procmap from to prot) _ (add_procmap-Keeps from to prot)
        (λ a. pure-Keeps _))
      (pure-Keeps kept)

scan_holes-Keeps :
    (l : MapsLine) (prot : ℕ) (hs : List Hole) (kept i : Bool) → Keeps (scan_holes l prot hs kept i)
unfolding scan_holes
scan_holes-Keeps l prot [] kept i = pure-Keeps _
scan_holes-Keeps l prot (h ∷ hs) kept i = if-Keeps _ _ _ (scan_holes-Keeps l prot hs kept i) (
    if-Keeps (ltb l.to h.to) _ _ (halted-Keeps _) (
      and_then-Keeps _ _ (add_if-Keeps (ltb l.from h.from) l.from h.from prot kept) (λ kept'.
        and_then-Keeps _ _ (add_if-Keeps (ltb h.to l.to) h.to l.to prot kept')
          (λ kept''. scan_holes-Keeps l prot hs kept'' true))))

chprot2prot-Keeps : (r w x : ℕ) → Keeps (chprot2prot r w x)
unfolding Keeps StaysIn chprot2prot
chprot2prot-Keeps r w x k h = ground arith

scan_line-Keeps : (hs : List Hole) (l : MapsLine) (kept : Bool) → Keeps (scan_line hs l kept)
unfolding scan_line
scan_line-Keeps hs l kept = and_then-Keeps _ _ (chprot2prot-Keeps l.r l.w l.x) (λ prot.
    and_then-Keeps _ _ (scan_holes-Keeps l prot hs kept false)
      (λ res. add_if-Keeps (not res.1) l.from l.to prot res.0))

none-some : (v : MapsLine) → none ≡ some v → ⊥
none-some v e = ground (arith, e)

module _ (strcmp : (a b : List ℕ) → ℤ) (strstr : (haystack needle : List ℕ) → Bool) where
  scan_read-Keeps :
      (hs : List Hole) (v : MapsLine) (kept : Bool) → Keeps (scan_read strcmp strstr hs v kept)
  unfolding scan_read
  scan_read-Keeps hs v kept =
      if-Keeps (is_skipped strcmp strstr v) _ _ (pure-Keeps _)
        (and_then-Keeps _ _ (scan_line-Keeps hs v kept) (λ kept'. pure-Keeps _))

  call-Keeps :
      (hs : List Hole) (f : Maps) (n i e : ℕ) (v : MapsLine) (kept : Bool) (r : Option MapsLine)
      → i ≤ e
      → ((v : MapsLine) → f.fscanf e v ≡ none)
      → f.fscanf i v ≡ r
      → ((i < e)
          → (v : MapsLine) (kept : Bool) → Keeps (scan_lines strcmp strstr hs f n (suc i) v kept))
      → Keeps (scan_lines strcmp strstr hs f (suc n) i v kept)
  unfolding scan_lines
  call-Keeps hs f n i e v kept none lo stop c rest = rw (c, scan_lines) (pure-Keeps kept)
  call-Keeps hs f n i e v kept (some v') lo stop c rest = elim (eq-or-lt_of_le lo) [
    | inl same ↦ absurd (none-some v' (sym (stop v) ∙ ap (λ j. f.fscanf j v) (sym same) ∙ c))
    | inr less ↦
        rw (c, scan_lines)
          (and_then-Keeps _ _ (scan_read-Keeps hs v' kept) (λ r. rest less r.1 r.0))
  ]

  scan_lines-Keeps :
      (hs : List Hole) (f : Maps) (n i e : ℕ) (v : MapsLine) (kept : Bool)
      → i ≤ e
      → e < i + n
      → ((v : MapsLine) → f.fscanf e v ≡ none)
      → Keeps (scan_lines strcmp strstr hs f n i v kept)
  scan_lines-Keeps hs f zero i e v kept lo hi stop = absurd (omega arith)
  scan_lines-Keeps hs f (suc n) i e v kept lo hi stop =
      call-Keeps hs f n i e v kept (f.fscanf i v) lo stop refl (λ less v' kept'.
        scan_lines-Keeps hs f n (suc i) e v' kept' (omega arith) (omega arith) stop)

  -- Whatever `fscanf` assigns and whatever the holes are, where one of its calls finds the end of
  -- the file and the fuel is enough for these, host_vm_init ends or fails an assertion, and the
  -- table never has more than 128 entries.
  pub host_vm_init-StaysIn :
      (text bss : Hole) (g : Globals) (f : Maps) (e : ℕ)
      → ((v : MapsLine) → f.fscanf e v ≡ none)
      → e < f.calls
      → StaysIn (host_vm_init strcmp strstr text bss g f (record { procmaps = [] }))
  unfolding host_vm_init Keeps
  host_vm_init-StaysIn text bss g f e stop enough =
      scan_lines-Keeps (prothole text bss g) f f.calls 0 e (record f.first { name = [] }) true
        (omega arith) (omega arith) stop (record { procmaps = [] }) (omega arith)
