-- ===== src/System/Invariant.antt =====
-- Every state that the first process leads to.
use os.Prelude.{
  sym, ◌∙◌, ℕ, zero, suc, get_elem?, ◌+◌, ◌≤◌, ◌<◌, ◌≡◌, List, [], ◌∷◌, length, arith, some,
}
use os.Prelude.Int.{pos_part}
use os.Machine.{ok}
use os.Machine.Memory.{Ptr}
use os.Kernel.Alloc.{allocinit}
use os.Kernel.Alloc.Arena.{IsArena}
use os.Kernel.Init.{Globals}
use os.Kernel.Pool.Api.{PoolApi}
use os.Kernel.Process.{Kernel, Proc, run_first}
use os.Kernel.Space.{Config}
use os.Kernel.Syscall.{Console}
use os.System.{AllGiven, HasMemory, Links, Nested, Reach, here, next, Regions}
use os.System.Chain.{Links-unique}
use os.System.First.{run_first-Nested}
use os.System.Traps.{Step-Moved}

module _ (g : Globals) (procs : Ptr → Proc) where
  Regions-below :
      (top p : Ptr) (ps : List Ptr) (j : ℕ) {r : Ptr}
      → Regions g procs top p ps
      → get_elem? (p ∷ ps) j ≡ some r
      → (procs r).stack + (procs r).stacksz ≤ top
  Regions-below top p [] zero h e = ground arith
  Regions-below top p [] (suc j) h e = ground arith
  Regions-below top p (q ∷ ps) zero h e = ground arith
  Regions-below top p (q ∷ ps) (suc j) (h, le, hs) e =
      omega (arith, Regions-below (procs p).freemark q ps j hs e)

  Regions-places :
      (top p : Ptr) (ps : List Ptr) (j : ℕ) {r : Ptr}
      → Regions g procs top p ps
      → get_elem? (p ∷ ps) j ≡ some r
      → ((procs r).freemark ≤ (procs r).load)
        × ((procs r).load + pos_part (procs r).loadsz ≤ (procs r).stack)
  Regions-places top p [] zero h e = ground arith
  Regions-places top p [] (suc j) h e = ground arith
  Regions-places top p (q ∷ ps) zero h e = ground arith
  Regions-places top p (q ∷ ps) (suc j) (h, le, hs) e =
      Regions-places (procs p).freemark q ps j hs e

  -- Of two processes of a chain, the memory of the lower one ends at the mark of the other at most.
  Regions-ordered :
      (top p : Ptr) (ps : List Ptr) (i j : ℕ) {q r : Ptr}
      → Regions g procs top p ps
      → i < j
      → get_elem? (p ∷ ps) i ≡ some q
      → get_elem? (p ∷ ps) j ≡ some r
      → (procs r).stack + (procs r).stacksz ≤ (procs q).freemark
  Regions-ordered top p ps i zero h lt e e' = absurd (omega arith)
  Regions-ordered top p [] i (suc j) h lt e e' = ground arith
  Regions-ordered top p (q ∷ ps) zero (suc j) (h, le, hs) lt e e' =
      ground (arith, Regions-below (procs p).freemark q ps j hs e')
  Regions-ordered top p (q ∷ ps) (suc i) (suc j) (h, le, hs) lt e e' =
      Regions-ordered (procs p).freemark q ps i j hs (omega arith) e e'

module _ (api : PoolApi) (config : Config) (args : ℕ) (console : Console) where
  -- Every state that steps lead to from one with a chain of processes has such a chain.
  pub Reach-Nested :
      {s t : Kernel api} {p : Ptr} {ps : List Ptr}
      → Nested api s p ps
      → (r : Reach api config args console s t) → AllGiven api config args console r
      → (q : Ptr) × (qs : List Ptr) × Nested api t q qs
  Reach-Nested {p} {ps} nested here given = (p, ps, nested)
  Reach-Nested nested (next {t} {u} r st) (given, last) =
      let (q, qs, n) = Reach-Nested nested r given in
      let (q', qs', m, n') = Step-Moved api config args console t u q qs st last n in (q', qs', n')

  -- Once `run_first` has entered the first process, from a pool with no block handed out and an
  -- arena, in every state that is reached on a way on which each process that was started, the
  -- first one too, was given memory for its program and a size that is not negative, neither of
  -- which `load` checks, the processes that have been started and have not exited are a chain from
  -- the current one down to the first, with a part of the arena for each, and not more than the
  -- pool has blocks.
  pub reached-Nested :
      (argv entry : Ptr) (s0 s t : Kernel api)
      → api.Live s0.procpool []
      → IsArena s0.space.globals s0.space.execbufp
      → run_first api config argv s0 ≡ ok (some entry) s
      → HasMemory (s.procs s.curp)
      → (way : Reach api config args console s t) → AllGiven api config args console way
      → (p : Ptr) × (ps : List Ptr) × Nested api t p ps × (length (p ∷ ps) ≤ api.capacity)
  reached-Nested argv entry s0 s t empty v h mem r given =
      let (p, ps, n) =
        Reach-Nested (run_first-Nested api config argv entry s0 s empty v h mem) r given in
      (p, ps, n, api.live-le t.procpool (p ∷ ps) n.live)

Nested-ordered :
    (api : PoolApi) (t : Kernel api) (p q r : Ptr) (ps : List Ptr) (i j : ℕ)
    → Nested api t p ps
    → i < j
    → get_elem? (p ∷ ps) i ≡ some q
    → get_elem? (p ∷ ps) j ≡ some r
    → ((t.procs r).load + pos_part (t.procs r).loadsz ≤ (t.procs r).stack)
      × ((t.procs r).stack + (t.procs r).stacksz ≤ (t.procs q).load)
      × ((t.procs q).load + pos_part (t.procs q).loadsz ≤ (t.procs q).stack)
Nested-ordered api t p q r ps i j n lt e e' =
    let g = t.space.globals in
    let top = allocinit g t.space.execbufp in
    let upper = Regions-places g t.procs top p ps i n.regions e in
    (
      (Regions-places g t.procs top p ps j n.regions e').1,
      omega (arith, Regions-ordered g t.procs top p ps i j n.regions lt e e', upper.0),
      upper.1,
    )

module _ (api : PoolApi) (config : Config) (args : ℕ) (console : Console) where
  -- In every state that is reached on a way on which each process that was started, the first one
  -- too, was given memory for its program and a size that is not negative, of two processes that
  -- `prev` leads to from the current one: the program of the one that was started first, its stack,
  -- the program of the other and its stack follow each other in memory, and none meets the next.
  pub reached-ordered :
      (argv entry : Ptr) (s0 s t : Kernel api) (p q r : Ptr) (ps : List Ptr) (i j : ℕ)
      → api.Live s0.procpool []
      → IsArena s0.space.globals s0.space.execbufp
      → run_first api config argv s0 ≡ ok (some entry) s
      → HasMemory (s.procs s.curp)
      → (way : Reach api config args console s t) → AllGiven api config args console way
      → t.curp ≡ p
      → Links t.procs p ps
      → i < j
      → get_elem? (p ∷ ps) i ≡ some q
      → get_elem? (p ∷ ps) j ≡ some r
      → ((t.procs r).load + pos_part (t.procs r).loadsz ≤ (t.procs r).stack)
        × ((t.procs r).stack + (t.procs r).stacksz ≤ (t.procs q).load)
        × ((t.procs q).load + pos_part (t.procs q).loadsz ≤ (t.procs q).stack)
  reached-ordered argv entry s0 s t p q r ps i j empty v h mem way given top links lt e e' =
      let (p', ps', n, few) =
        reached-Nested api config args console argv entry s0 s t empty v h mem way given in
      let same : p ≡ p' = sym top ∙ n.curp in
      let chain : ps ≡ ps' = Links-unique t.procs p' ps ps' (rw same at links) n.links in
      Nested-ordered api t p' q r ps' i j n lt (rw (same, chain) at e) (rw (same, chain) at e')
