-- ===== src/Hal/Protect/Isolate.antt =====
-- What a process and the kernel can reach between the calls of `host_vm_prot`.
use os.Prelude.{
  ℕ, zero, suc, ◌+◌, ◌-◌, ◌%◌, ◌&&◌, ◌||◌, ◌≡◌, ◌≤◌, ◌<◌, ◌⊎◌, inl, inr, Bool, true, false,
  if◌then◌else◌, List, [], ◌∷◌, ◌++◌, length, replicate, ltb, leb, arith, refl, ap, ◌∙◌,
}
use os.Kernel.Process.{Proc}
use os.Hal.Protect.{
  Mprotect, page, to_size, all_entries, protect_entries, protect_process, host_vm_prot,
}
use os.Hal.Vm.{MmapEnt, Kmmap, procmaps_max}
use os.Hal.Vm.Holes.{mapped}

module _ (m : Mprotect) where
  open m use {
    State, sys_mprotect, prot_at, IsMapped, sys_mprotect-IsMapped, prot_at-inside, prot_at-outside,
  }

  -- A mapped range of whole pages.
  abbrev pub IsPages : (addr size : ℕ) → State → Type 0
  IsPages addr size s = IsMapped addr size s × (addr % page ≡ 0) × (size % page ≡ 0)

  pub data AllPages (s : State) : List MmapEnt → Type 0 where
    end : AllPages s []
    and_pages :
        {e : MmapEnt} {es : List MmapEnt}
        → IsPages e.from e.sz s
        → AllPages s es
        → AllPages s (e ∷ es)

  pub sys_mprotect-AllPages :
      (addr size prot : ℕ) (s : State) (es : List MmapEnt)
      → AllPages s es
      → AllPages (sys_mprotect addr size prot s) es
  sys_mprotect-AllPages addr size prot s [] end = end
  sys_mprotect-AllPages addr size prot s (e ∷ es) (and_pages (h, a, z) ps) =
      and_pages (sys_mprotect-IsMapped addr size prot s h, a, z)
        (sys_mprotect-AllPages addr size prot s es ps)

  pub protect_entries-IsMapped :
      (restore : Bool) (es : List MmapEnt) (s : State) {addr size : ℕ}
      → IsMapped addr size s
      → IsMapped addr size (protect_entries m restore es s)
  unfolding protect_entries
  protect_entries-IsMapped restore [] s h = h
  protect_entries-IsMapped restore (e ∷ es) s h =
      protect_entries-IsMapped restore es _ (sys_mprotect-IsMapped e.from e.sz _ s h)

  protect_entries-append :
      (restore : Bool) (xs ys : List MmapEnt) (s : State)
      → protect_entries m restore (xs ++ ys) s
        ≡ protect_entries m restore ys (protect_entries m restore xs s)
  unfolding protect_entries
  protect_entries-append restore [] ys s = refl
  protect_entries-append restore (x ∷ xs) ys s = protect_entries-append restore xs ys _

  prot_at-padding :
      (restore : Bool) (n : ℕ) (s : State) (a : ℕ)
      → prot_at
          (protect_entries m restore (replicate n (record { from = 0; sz = 0; prot = 0 })) s)
          a
        ≡ prot_at s a
  unfolding protect_entries
  prot_at-padding restore zero s a = refl
  prot_at-padding restore (suc n) s a =
      prot_at-padding restore n _ a ∙ prot_at-outside 0 0 _ s a refl (inr (omega arith))

  abbrev pub in_range : (a from sz : ℕ) → Bool
  in_range a from sz = leb from a && ltb a (from + sz)

  -- Whether an entry holds the address.
  unfoldable pub is_held : (a : ℕ) → List MmapEnt → Bool
  is_held a [] = false
  is_held a (e ∷ es) = in_range a e.from e.sz || is_held a es

  is_held-mapped : (a p : ℕ) (es : List MmapEnt) → mapped a p es ≡ true → is_held a es ≡ true
  unfolding is_held
  is_held-mapped a p [] h = ground arith
  is_held-mapped a p (e ∷ es) h = ground (arith, is_held-mapped a p es)

  outside_or_inside :
      (a from sz : ℕ) → ((from ≤ a) × (a < from + sz)) ⊎ ((a < from) ⊎ (from + sz ≤ a))
  outside_or_inside a from sz = ground arith

  -- Where all entries that hold the address set it to `v`, and it is in one or was `v` before.
  prot_at-entries :
      (restore : Bool) (es : List MmapEnt) (s : State) (a v : ℕ)
      → AllPages s es
      → ((q : ℕ) → mapped a q es ≡ true → (if restore then q else 0) ≡ v)
      → (is_held a es ≡ true) ⊎ (prot_at s a ≡ v)
      → prot_at (protect_entries m restore es s) a ≡ v
  unfolding protect_entries is_held
  prot_at-entries restore [] s a v end agree (inl h) = ground arith
  prot_at-entries restore [] s a v end agree (inr h) = h
  prot_at-entries restore (e ∷ es) s a v (and_pages (h, al, z) ps) agree was =
      prot_at-entries restore es s' a v (sys_mprotect-AllPages e.from e.sz p s es ps)
        (λ q' h'. agree q' (ground arith))
        (elim (outside_or_inside a e.from e.sz) [
          | inl (lo, hi) ↦
              inr (prot_at-inside e.from e.sz p s a h al lo hi ∙ agree e.prot (ground arith))
          | inr out ↦ elim was [
            | inl in_es ↦ inl (ground arith)
            | inr old ↦ inr (prot_at-outside e.from e.sz p s a z out ∙ old)
          ]
        ])
    where
      p : ℕ
      p = if restore then e.prot else 0

      s' : State
      s' = sys_mprotect e.from e.sz p s

  pub prot_at-not_held :
      (restore : Bool) (es : List MmapEnt) (s : State) (a : ℕ)
      → AllPages s es
      → is_held a es ≡ false
      → prot_at (protect_entries m restore es s) a ≡ prot_at s a
  unfolding protect_entries is_held
  prot_at-not_held restore [] s a end h = refl
  prot_at-not_held restore (e ∷ es) s a (and_pages (i, al, z) ps) h =
      prot_at-not_held restore es s' a (sys_mprotect-AllPages e.from e.sz p s es ps) (ground arith)
      ∙ prot_at-outside e.from e.sz p s a z (ground arith)
    where
      p : ℕ
      p = if restore then e.prot else 0

      s' : State
      s' = sys_mprotect e.from e.sz p s

  pub prot_at-all_entries :
      (restore : Bool) (k : Kmmap) (s : State) (a : ℕ)
      → prot_at (protect_entries m restore (all_entries k) s) a
        ≡ prot_at (protect_entries m restore k.procmaps s) a
  prot_at-all_entries restore k s a =
      ap (λ x. prot_at x a) (protect_entries-append restore k.procmaps _ s)
      ∙ prot_at-padding restore (procmaps_max - length k.procmaps) _ a

  -- Where the table's entries are mapped ranges of whole pages, host_vm_prot(true) gives an address
  -- for which they have one protection that protection.
  pub host_vm_prot-restore :
      (k : Kmmap) (curp : Proc) (s : State) (a p : ℕ)
      → AllPages s k.procmaps
      → mapped a p k.procmaps ≡ true
      → ((q : ℕ) → mapped a q k.procmaps ≡ true → q ≡ p)
      → prot_at (host_vm_prot m true k curp s) a ≡ p
  unfolding host_vm_prot
  host_vm_prot-restore k curp s a p ps h one =
      prot_at-all_entries true k s a
      ∙ prot_at-entries true k.procmaps s a p ps one (inl (is_held-mapped a p k.procmaps h))

  -- What a running process finds at an address, which was `old` before.
  abbrev pub process_prot : (a : ℕ) → Kmmap → Proc → (old : ℕ) → ℕ
  process_prot a k curp old =
      if in_range a curp.stack curp.stacksz
      then 3
      else if in_range a curp.load (to_size curp.loadsz)
      then 7
      else if is_held a k.procmaps
      then 0
      else old

  pub data HasPages (s : State) (curp : Proc) : Type 0 where
    pages :
        IsPages curp.load (to_size curp.loadsz) s
        → IsPages curp.stack curp.stacksz s
        → HasPages s curp

  prot_at-locked :
      (k : Kmmap) (s : State) (a : ℕ)
      → AllPages s k.procmaps
      → prot_at (protect_entries m false (all_entries k) s) a
        ≡ (if is_held a k.procmaps then 0 else prot_at s a)
  prot_at-locked k s a ps = ground (
    arith,
    prot_at-all_entries false k s a,
    prot_at-entries false k.procmaps s a 0 ps (λ q h. refl),
    prot_at-not_held false k.procmaps s a ps,
  )

  prot_at-process :
      (curp : Proc) (s : State) (a : ℕ)
      → HasPages s curp
      → prot_at (protect_process m curp s) a ≡ (
          if in_range a curp.stack curp.stacksz
          then 3
          else if in_range a curp.load (to_size curp.loadsz)
          then 7
          else prot_at s a)
  unfolding protect_process
  prot_at-process curp s a (pages (lm, la, lz) (sm, sa, sz)) = ground (
    arith,
    prot_at-inside curp.load (to_size curp.loadsz) 7 s a lm la,
    prot_at-outside curp.load (to_size curp.loadsz) 7 s a lz,
    prot_at-inside curp.stack curp.stacksz 3 (sys_mprotect curp.load (to_size curp.loadsz) 7 s) a
        (sys_mprotect-IsMapped curp.load (to_size curp.loadsz) 7 s sm) sa,
    prot_at-outside curp.stack curp.stacksz 3 (sys_mprotect curp.load (to_size curp.loadsz) 7 s) a
        sz,
  )

  -- Where the table's entries and the process's load and stack are mapped ranges of whole pages, a
  -- running process finds its stack readable and writable, its load also executable, nothing else
  -- that the table holds, and every other address as it was.
  pub host_vm_prot-process :
      (k : Kmmap) (curp : Proc) (s : State)
      → AllPages s k.procmaps
      → HasPages s curp
      → (a : ℕ) → prot_at (host_vm_prot m false k curp s) a ≡ process_prot a k curp (prot_at s a)
  unfolding host_vm_prot
  host_vm_prot-process k curp s ps (pages (lm, la, lz) (sm, sa, sz)) a =
      let locked = protect_entries m false (all_entries k) s in
      let found : HasPages locked curp =
        pages (protect_entries-IsMapped false (all_entries k) s lm, la, lz)
          (protect_entries-IsMapped false (all_entries k) s sm, sa, sz) in
      prot_at-process curp locked a found ∙ rw (prot_at-locked k s a ps) refl
