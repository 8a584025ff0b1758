-- ===== src/Hal/Vm/Holes.antt =====
-- One line of the host's mappings against the holes.
use mathlib.Core.List.{append-nil, append_assoc}
use os.Prelude.{
  ℕ, ◌+◌, ◌-◌, ◌%◌, ◌^◌, ◌==◌, ◌&&◌, ◌||◌, ltb, leb, not, Bool, true, false, List, [], ◌∷◌, ◌++◌,
  length, if◌then◌else◌, ap, ◌∙◌, length-append, ◌≡◌, ◌≤◌, ◌<◌, ◌⊎◌, inl, inr, refl, arith,
}
use os.Machine.{ok}
use os.Hal.Vm.{
  MmapEnt, Kmmap, MapsLine, Hole, procmaps_max, prot_bits, is_flag, add_procmap, add_if, scan_holes,
  scan_line, chprot2prot,
}

-- Whether an entry gives the address `a` the protection `p`.
abbrev pub mapped : (a p : ℕ) → List MmapEnt → Bool
mapped a p [] = false
mapped a p (e ∷ es) = (leb e.from a && ltb a (e.from + e.sz) && (e.prot == p)) || mapped a p es

abbrev pub in_hole : (a : ℕ) → List Hole → Bool
in_hole a [] = false
in_hole a (h ∷ hs) = (leb h.from a && ltb a h.to) || in_hole a hs

abbrev pub Apart : MapsLine → Hole → Type 0
Apart l h = (h.from < h.to) × ((h.to ≤ l.from) ⊎ (l.to ≤ h.from))

abbrev pub Inside : MapsLine → Hole → Type 0
Inside l h = (l.from ≤ h.from) × (h.from < h.to) × (h.to ≤ l.to)

pub data AllApart (l : MapsLine) : List Hole → Type 0 where
  end : AllApart l []
  and_apart : {h : Hole} {hs : List Hole} → Apart l h → AllApart l hs → AllApart l (h ∷ hs)

-- No hole meets the line, or one lies inside of it and no other meets it.
pub data HasOneHole (l : MapsLine) : List Hole → Type 0 where
  nowhere : HasOneHole l []
  apart : {h : Hole} {hs : List Hole} → Apart l h → HasOneHole l hs → HasOneHole l (h ∷ hs)
  inside : {h : Hole} {hs : List Hole} → Inside l h → AllApart l hs → HasOneHole l (h ∷ hs)

-- Its length fits the `unsigned` of an entry.
abbrev pub IsSized : (from to : ℕ) → Type 0
IsSized from to = (from ≤ to) × (to < 2 ^ 64) × (to < from + 2 ^ 32)

abbrev pub added : Kmmap → List MmapEnt → Kmmap
added k es = record k { procmaps = k.procmaps ++ es }

abbrev piece : (c : Bool) → (from to prot : ℕ) → List MmapEnt
piece c from to prot = if c then record { from = from; sz = to - from; prot = prot } ∷ [] else []

scan_holes-apart :
    (l : MapsLine) (prot : ℕ) (hs : List Hole) (kept i : Bool) (k : Kmmap)
    → AllApart l hs
    → scan_holes l prot hs kept i k ≡ ok (kept, i) k
unfolding scan_holes
scan_holes-apart l prot [] kept i k end = refl
scan_holes-apart l prot (h ∷ hs) kept i k (and_apart p ps) =
    ground (arith, scan_holes-apart l prot hs kept i k ps)

in_hole-apart :
    (l : MapsLine) (hs : List Hole) (a : ℕ)
    → AllApart l hs
    → l.from ≤ a
    → a < l.to
    → in_hole a hs ≡ false
in_hole-apart l [] a end lo hi = refl
in_hole-apart l (h ∷ hs) a (and_apart p ps) lo hi = ground (arith, in_hole-apart l hs a ps lo hi)

pub mapped-append :
    (a p : ℕ) (xs ys : List MmapEnt) → mapped a p (xs ++ ys) ≡ (mapped a p xs || mapped a p ys)
mapped-append a p [] ys = refl
mapped-append a p (x ∷ xs) ys = ground (arith, mapped-append a p xs ys)

mapped-piece :
    (a p : ℕ) (c : Bool) (from to prot : ℕ)
    → mapped a p (piece c from to prot) ≡ (c && leb from a && ltb a to && (prot == p))
mapped-piece a p c from to prot = ground arith

size-entry : (from to : ℕ) → IsSized from to → (to + 2 ^ 64 - from) % 2 ^ 64 % 2 ^ 32 ≡ to - from
size-entry from to s = omega arith

add_if-piece :
    (c : Bool) (from to prot : ℕ) (kept : Bool) (k : Kmmap)
    → IsSized from to
    → length k.procmaps < procmaps_max
    → add_if c from to prot kept k ≡ ok kept (added k (piece c from to prot))
unfolding add_if add_procmap
add_if-piece c from to prot kept k s room =
    ground (arith, size-entry from to s, append-nil k.procmaps)

abbrev before_piece : MapsLine → Hole → (prot : ℕ) → List MmapEnt
before_piece l h prot = piece (ltb l.from h.from) l.from h.from prot

abbrev behind_piece : MapsLine → Hole → (prot : ℕ) → List MmapEnt
behind_piece l h prot = piece (ltb h.to l.to) h.to l.to prot

length-piece : (c : Bool) (from to prot : ℕ) → length (piece c from to prot) ≤ 1
length-piece true from to prot = omega arith
length-piece false from to prot = omega arith

pub length-added :
    (k : Kmmap) (es : List MmapEnt) → length (added k es).procmaps ≡ length k.procmaps + length es
length-added k es = length-append k.procmaps es

pub added-added : (k : Kmmap) (xs ys : List MmapEnt) → added (added k xs) ys ≡ added k (xs ++ ys)
added-added k xs ys = ap (λ es. record { procmaps = es }) (append_assoc k.procmaps xs ys)

scan_holes-Inside :
    (l : MapsLine) (prot : ℕ) (h : Hole) (hs : List Hole) (kept i : Bool) (k : Kmmap)
    → Inside l h
    → AllApart l hs
    → IsSized l.from l.to
    → length k.procmaps + 2 ≤ procmaps_max
    → scan_holes l prot (h ∷ hs) kept i k
      ≡ ok (kept, true) (added k (before_piece l h prot ++ behind_piece l h prot))
unfolding scan_holes
scan_holes-Inside l prot h hs kept i k p ps s room =
    rw (← added-added k (before_piece l h prot) (behind_piece l h prot)) (
      ground (
        arith,
        add_if-piece (ltb l.from h.from) l.from h.from prot kept k (omega arith) (omega arith),
        add_if-piece (ltb h.to l.to) h.to l.to prot kept (added k (before_piece l h prot))
            (omega arith)
            (omega (
              arith,
              length-added k (before_piece l h prot),
              length-piece (ltb l.from h.from) l.from h.from prot,
            )),
        scan_holes-apart l prot hs kept true
            (added (added k (before_piece l h prot)) (behind_piece l h prot)) ps,
      ))

-- What a line gives its addresses.
abbrev pub gives : (a p : ℕ) → MapsLine → (prot : ℕ) → List Hole → Bool
gives a p l prot hs = leb l.from a && ltb a l.to && (prot == p) && not (in_hole a hs)

mapped-pieces :
    (a p : ℕ) (l : MapsLine) (prot : ℕ) (h : Hole) (hs : List Hole)
    → Inside l h
    → AllApart l hs
    → mapped a p (before_piece l h prot ++ behind_piece l h prot) ≡ gives a p l prot (h ∷ hs)
mapped-pieces a p l prot h hs i ps = ground (
  arith,
  mapped-append a p (before_piece l h prot) (behind_piece l h prot),
  mapped-piece a p (ltb l.from h.from) l.from h.from prot,
  mapped-piece a p (ltb h.to l.to) h.to l.to prot,
  in_hole-apart l hs a ps,
)

-- What the loop over the holes has done of a line: nothing, as no hole meets it, or all.
Scanned : (l : MapsLine) (prot : ℕ) (hs : List Hole) (kept i : Bool) (k : Kmmap) → Type 0
Scanned l prot hs kept i k =
    (scan_holes l prot hs kept i k ≡ ok (kept, i) k)
      × ((a : ℕ) → l.from ≤ a → a < l.to → in_hole a hs ≡ false)
    ⊎ ((es : List MmapEnt) × (scan_holes l prot hs kept i k ≡ ok (kept, true) (added k es))
        × (length es ≤ 2)
        × ((a p : ℕ) → mapped a p es ≡ gives a p l prot hs))

length-pieces :
    (l : MapsLine) (h : Hole) (prot : ℕ)
    → length (before_piece l h prot ++ behind_piece l h prot) ≤ 2
length-pieces l h prot = ground arith

gives-Apart :
    (a p : ℕ) (l : MapsLine) (prot : ℕ) (h : Hole) (hs : List Hole)
    → Apart l h
    → gives a p l prot hs ≡ gives a p l prot (h ∷ hs)
gives-Apart a p l prot h hs out = ground arith

scan_holes-Scanned :
    (l : MapsLine) (prot : ℕ) (hs : List Hole) (kept i : Bool) (k : Kmmap)
    → HasOneHole l hs
    → IsSized l.from l.to
    → length k.procmaps + 2 ≤ procmaps_max
    → Scanned l prot hs kept i k
unfolding scan_holes Scanned
scan_holes-Scanned l prot [] kept i k nowhere s room = inl (refl, λ a lo hi. refl)
scan_holes-Scanned l prot (h ∷ hs) kept i k (apart p one) s room =
    elim (scan_holes-Scanned l prot hs kept i k one s room) [
      | inl (e, out) ↦ inl (ground (arith, e), λ a lo hi. ground (arith, out a lo hi))
      | inr (es, e, short, m) ↦
          inr (es, ground (arith, e), short, λ a q. m a q ∙ gives-Apart a q l prot h hs p)
    ]
scan_holes-Scanned l prot (h ∷ hs) kept i k (inside p ps) s room = inr (
  before_piece l h prot ++ behind_piece l h prot,
  scan_holes-Inside l prot h hs kept i k p ps s room,
  length-pieces l h prot,
  λ a q. mapped-pieces a q l prot h hs p ps,
)

-- The letters of a line's protection are as in the proc manual.
abbrev pub HasFlags : MapsLine → Type 0
HasFlags l = (is_flag l.r 114 ≡ true) × (is_flag l.w 119 ≡ true) × (is_flag l.x 120 ≡ true)

abbrev pub prot_of : MapsLine → ℕ
prot_of l = prot_bits l.r l.w l.x

-- Where there is room for two entries, a line adds at most two, and they give each address what
-- the line gives it outside the holes.
pub scan_line-gives :
    (l : MapsLine) (hs : List Hole) (kept : Bool) (k : Kmmap)
    → HasFlags l
    → HasOneHole l hs
    → IsSized l.from l.to
    → length k.procmaps + 2 ≤ procmaps_max
    → (es : List MmapEnt) × (scan_line hs l kept k ≡ ok kept (added k es))
      × (length es ≤ 2)
      × ((a p : ℕ) → mapped a p es ≡ gives a p l (prot_of l) hs)
unfolding scan_line chprot2prot Scanned
scan_line-gives l hs kept k flags one s room =
    elim (scan_holes-Scanned l (prot_of l) hs kept false k one s room) [
      | inl (e, out) ↦ (
        piece true l.from l.to (prot_of l),
        ground (arith, e, add_if-piece true l.from l.to (prot_of l) kept k s (omega arith)),
        omega arith,
        λ a p. ground (arith, out a),
      )
      | inr (es, e, short, m) ↦ (
        es,
        ground (
          arith,
          e,
          append-nil es,
          add_if-piece false l.from l.to (prot_of l) kept k s (omega arith),
        ),
        short,
        m,
      )
    ]
