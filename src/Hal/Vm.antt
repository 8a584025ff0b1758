-- ===== src/Hal/Vm.antt =====
-- hosthal/exn.c: the table of the host's mappings, from which `host_vm_init` leaves out the memory
-- that a running process or the signal handler needs. The host's `fscanf` of /proc/self/maps,
-- `strcmp` and `strstr` are parameters. The message where the table is full is left out.
pub mod Bound
pub mod Holes
pub mod Lines
use os.Prelude.{
  ℕ, ◌+◌, ◌-◌, ◌%◌, ◌^◌, ◌==◌, ◌&&◌, ◌||◌, ltb, leb, if◌then◌else◌, not, Bool, true, false, List,
  [], ◌∷◌, ◌++◌, length, zero, suc, Option, some, none,
}
use os.Prelude.Int.{ℤ, is_zero}
use os.Kernel.Init.{Globals}
use os.Machine.{Cmd, ok, halted, out_of_fuel, pure, ◌>>=◌, ◌>>◌}

-- `struct mmapent`
pub record MmapEnt : Type 0 where
  pub from : ℕ
  pub sz : ℕ
  pub prot : ℕ

-- `struct kmmap`: the first `n` entries of `procmaps`, so that `n` is their number. The entries
-- behind them are zeros.
pub record Kmmap : Type 0 where
  pub procmaps : List MmapEnt

abbrev pub procmaps_max : ℕ
procmaps_max = 128

-- The local variables that `fscanf` assigns.
pub record MapsLine : Type 0 where
  pub from : ℕ
  pub to : ℕ
  pub r : ℕ
  pub w : ℕ
  pub x : ℕ
  pub name : List ℕ

-- `fscanf` of the file: its call number `i`, counted from 0, takes the variables to what it
-- assigns, or finds the end of the file. Before the first call the variables are `first`, but for
-- the name. `calls` is the fuel of the loop.
pub record Maps : Type 0 where
  pub fscanf : (i : ℕ) → MapsLine → Option MapsLine
  pub first : MapsLine
  pub calls : ℕ

-- An entry of `prothole`.
pub record Hole : Type 0 where
  pub from : ℕ
  pub to : ℕ

-- The sections' bounds are set by the linker.
abbrev pub prothole : (text bss : Hole) → Globals → List Hole
prothole text bss g = text ∷ bss ∷ record { from = g.mem; to = (g.mem + g.memsz) % 2 ^ 64 } ∷ []

abbrev pub dash : ℕ
dash = 45

-- `c == flag || c == '-'`
abbrev pub is_flag : (c flag : ℕ) → Bool
is_flag c flag = (c == flag) || (c == dash)

-- PROT_READ, PROT_WRITE and PROT_EXEC are the bits 1, 2 and 4.
abbrev pub prot_bits : (r w x : ℕ) → ℕ
prot_bits r w x =
    (if r == 114 then 1 else 0) + (if w == 119 then 2 else 0) + (if x == 120 then 4 else 0)

-- A failed assertion halts.
unfoldable pub chprot2prot : {S : Type 0} → (r w x : ℕ) → Cmd S ℕ
chprot2prot r w x =
    if not (is_flag r 114)
    then halted
    else if not (is_flag w 119)
    then halted
    else if not (is_flag x 120)
    then halted
    else pure (prot_bits r w x)

abbrev pub map_entry : (from to prot : ℕ) → MmapEnt
map_entry from to prot = record {
  from = from;
  sz = (to + 2 ^ 64 - from) % 2 ^ 64 % 2 ^ 32;
  prot = prot;
}

unfoldable pub add_procmap : (from to prot : ℕ) → Cmd Kmmap Bool
add_procmap from to prot k =
    if leb procmaps_max (length k.procmaps)
    then ok false k
    else ok true (record k { procmaps = k.procmaps ++ map_entry from to prot ∷ [] })

-- `if (c) { ok = ok & add_procmap(...); }`
unfoldable pub add_if : (c : Bool) → (from to prot : ℕ) → (kept : Bool) → Cmd Kmmap Bool
unfolding add_procmap
add_if c from to prot kept =
    if c then (add_procmap from to prot >>= λ added. pure (kept && added)) else pure kept

-- The loop over the holes; the result is `ok` and `intersects`.
unfoldable pub scan_holes :
    MapsLine → (prot : ℕ) → List Hole → (kept intersects : Bool) → Cmd Kmmap (Bool × Bool)
unfolding add_if
scan_holes l prot [] kept intersects = pure (kept, intersects)
scan_holes l prot (h ∷ hs) kept intersects =
    if not (leb l.from h.from && ltb h.from l.to)
    then scan_holes l prot hs kept intersects
    else if ltb l.to h.to
    then halted
    else (add_if (ltb l.from h.from) l.from h.from prot kept >>= λ kept'.
        add_if (ltb h.to l.to) h.to l.to prot kept' >>= λ kept''. scan_holes l prot hs kept'' true)

-- One line that is not skipped.
unfoldable pub scan_line : List Hole → MapsLine → (kept : Bool) → Cmd Kmmap Bool
unfolding chprot2prot scan_holes add_if
scan_line holes l kept = do
  prot ← chprot2prot l.r l.w l.x
  res ← scan_holes l prot holes kept false
  add_if (not res.1) l.from l.to prot res.0

-- "[stack]" and "libpthread-"
abbrev pub stack_name : List ℕ
stack_name = 91 ∷ 115 ∷ 116 ∷ 97 ∷ 99 ∷ 107 ∷ 93 ∷ []

abbrev pub libpthread_name : List ℕ
libpthread_name = 108 ∷ 105 ∷ 98 ∷ 112 ∷ 116 ∷ 104 ∷ 114 ∷ 101 ∷ 97 ∷ 100 ∷ 45 ∷ []

-- `strcmp` returns an `int`, and of the result of `strstr` only whether it is NULL is used.
module _ (strcmp : (a b : List ℕ) → ℤ) (strstr : (haystack needle : List ℕ) → Bool) where
  abbrev pub is_skipped : MapsLine → Bool
  is_skipped l = is_zero (strcmp l.name stack_name) || strstr l.name libpthread_name

  -- The body of the loop. A line that is skipped leaves the name in the buffer, where it stands for
  -- that of the next line if that has none.
  unfoldable pub scan_read : List Hole → MapsLine → (kept : Bool) → Cmd Kmmap (Bool × MapsLine)
  unfolding scan_line
  scan_read holes v kept =
      if is_skipped v
      then pure (kept, v)
      else scan_line holes v kept >>= λ kept'. pure (kept', record v { name = [] })

  unfoldable pub scan_lines :
      List Hole → Maps → (calls i : ℕ) → MapsLine → (kept : Bool) → Cmd Kmmap Bool
  unfolding scan_read
  scan_lines holes f zero i v kept = λ k. out_of_fuel
  scan_lines holes f (suc n) i v kept = elim (f.fscanf i v) [
    | none ↦ pure kept
    | some v' ↦ scan_read holes v' kept >>= λ r. scan_lines holes f n (suc i) r.1 r.0
  ]

  -- The result of the C function is 0; this one is false where it prints that lines were lost.
  unfoldable pub host_vm_init : (text bss : Hole) → Globals → Maps → Cmd Kmmap Bool
  unfolding scan_lines
  host_vm_init text bss g f =
      scan_lines (prothole text bss g) f f.calls 0 (record f.first { name = [] }) true
