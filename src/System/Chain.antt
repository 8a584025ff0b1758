-- ===== src/System/Chain.antt =====
-- Chains of processes: what they depend on, and what they say of each process.
use mathlib.Core.List.{Mem, mem-cons, mem-cons_self, mem-cons_of_mem, not-mem-nil}
use mathlib.Core.Logic.Or
use mathlib.Core.Path.{subst}
use os.Prelude.{◌≡◌, ◌≢◌, List, [], ◌∷◌, sym, refl, ◌∙◌}
use os.Machine.Memory.{Ptr, null}
use os.Kernel.Init.{Globals}
use os.Kernel.Process.{Proc}
use os.System.{Links, Regions, LiesBelow}

-- What a chain reads of a process.
pub record SamePlace (v v' : Proc) : Type 0 where
  pub prev : v'.prev ≡ v.prev
  pub freemark : v'.freemark ≡ v.freemark
  pub load : v'.load ≡ v.load
  pub loadsz : v'.loadsz ≡ v.loadsz
  pub stack : v'.stack ≡ v.stack
  pub stacksz : v'.stacksz ≡ v.stacksz

pub SamePlace_of_eq : {v v' : Proc} → v' ≡ v → SamePlace v v'
SamePlace_of_eq e = record {
  prev = rw e;
  freemark = rw e;
  load = rw e;
  loadsz = rw e;
  stack = rw e;
  stacksz = rw e;
}

LiesBelow-frame : (top : Ptr) (v v' : Proc) → SamePlace v v' → LiesBelow top v → LiesBelow top v'
LiesBelow-frame top v v' s h = rw (s.freemark, s.load, s.loadsz, s.stack, s.stacksz) h

module _ {procs procs' : Ptr → Proc} where
  pub Links-frame :
      (p : Ptr) (ps : List Ptr)
      → ((q : Ptr) → Mem q (p ∷ ps) → SamePlace (procs q) (procs' q))
      → Links procs p ps
      → Links procs' p ps
  Links-frame p [] same h = rw (same p mem-cons_self).prev h
  Links-frame p (q ∷ ps) same (e, ne, h) = (
    rw (same p mem-cons_self).prev e,
    ne,
    Links-frame q ps (λ r i. same r (mem-cons_of_mem p i)) h,
  )

  pub Regions-frame :
      (g : Globals) (top p : Ptr) (ps : List Ptr)
      → ((q : Ptr) → Mem q (p ∷ ps) → SamePlace (procs q) (procs' q))
      → Regions g procs top p ps
      → Regions g procs' top p ps
  Regions-frame g top p [] same h = LiesBelow-frame top _ _ (same p mem-cons_self) h
  Regions-frame g top p (q ∷ ps) same (h, le, hs) =
      let s = same p mem-cons_self in
      (
        LiesBelow-frame top _ _ s h,
        rw s.freemark le,
        rw s.freemark
            (Regions-frame g (procs p).freemark q ps (λ r i. same r (mem-cons_of_mem p i)) hs),
      )

pub Regions-at :
    {g g' : Globals} (procs : Ptr → Proc) {top top' : Ptr} (p : Ptr) (ps : List Ptr)
    → g' ≡ g
    → top' ≡ top
    → Regions g procs top p ps
    → Regions g' procs top' p ps
Regions-at {g'} procs {top} p ps e e' h =
    subst (λ t. Regions g' procs t p ps) (sym e') (subst (λ g. Regions g procs top p ps) (sym e) h)

ne_prop : (p q : Ptr) → IsProp (p ≢ q)
ne_prop p q = hlevel

-- No process of a chain is at NULL.
pub Links-ne_null :
    (procs : Ptr → Proc) (p : Ptr) (ps : List Ptr) (q : Ptr)
    → p ≢ null
    → Links procs p ps
    → Mem q (p ∷ ps)
    → q ≢ null
Links-ne_null procs p [] q ne h i =
    Or.elim (ne_prop q null) (mem-cons.0 i) (λ e. rw e ne) (λ j. absurd (not-mem-nil j))
Links-ne_null procs p (r ∷ ps) q ne (e, ne', h) i =
    Or.elim (ne_prop q null) (mem-cons.0 i) (λ e. rw e ne) (λ j. Links-ne_null procs r ps q ne' h j)

-- A chain is what `prev` leads to from its top, so there is one at most.
pub Links-unique :
    (procs : Ptr → Proc) (p : Ptr) (ps qs : List Ptr)
    → Links procs p ps
    → Links procs p qs
    → ps ≡ qs
Links-unique procs p [] [] h k = refl
Links-unique procs p [] (q ∷ qs) h (e, ne, k) = absurd (ne (sym e ∙ h))
Links-unique procs p (q ∷ ps) [] (e, ne, h) k = absurd (ne (sym e ∙ k))
Links-unique procs p (q ∷ ps) (r ∷ qs) (e, ne, h) (e', ne', k) =
    let same : q ≡ r = sym e ∙ e' in ap2 same (Links-unique procs r ps qs (rw same at h) k)
  where
    ap2 : q ≡ r → ps ≡ qs → q ∷ ps ≡ r ∷ qs
    ap2 a b = rw (a, b)
