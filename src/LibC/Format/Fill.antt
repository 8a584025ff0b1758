-- ===== src/LibC/Format/Fill.antt =====
-- What `vsnprintf` is to write: the pieces of a text, as far as they fit, and the bytes of each.
use os.Prelude.{
  ℕ, suc, ◌+◌, ◌-◌, ◌≡◌, ◌≤◌, ◌<◌, ◌≢◌, ◌⊎◌, Bool, true, false, List, [], ◌∷◌, ◌++◌, length,
  length-append, some, ltb, if◌then◌else◌, arith, refl, Bool-cases, inl, inr, ◌∙◌,
}
use os.Prelude.Int.{ℤ}
use os.LibC.Copy.{to_byte}
use os.LibC.Copy.Move.{stored}
use os.LibC.Decimal.{format_int}
use os.LibC.Format.{Arg, string, int, store_all}
use os.Machine.{ok}
use os.Machine.Memory.{Ptr, Memory, write}
use os.Machine.Memory.Region.{CString, Mapped, Mapped-write}

-- The pieces up to the first that is not shorter than the room that is left.
unfoldable pub fill : (room : ℕ) → List (List ℕ) → List ℕ
fill room [] = []
fill room (bs ∷ ps) =
    let rest = fill (room - length bs) ps in if ltb (length bs) room then bs ++ rest else []

pub fill-fits :
    (r : ℕ) (bs : List ℕ) (ps : List (List ℕ))
    → length bs < r
    → fill r (bs ∷ ps) ≡ bs ++ fill (r - length bs) ps
unfolding fill
fill-fits r bs ps h = ground arith

pub fill-full : (r : ℕ) (bs : List ℕ) (ps : List (List ℕ)) → r ≤ length bs → fill r (bs ∷ ps) ≡ []
unfolding fill
fill-full r bs ps h = ground arith

pub length-fill : (r : ℕ) (ps : List (List ℕ)) → length (fill r ps) ≤ r
unfolding fill
length-fill r [] = omega arith
length-fill r (bs ∷ ps) = elim (Bool-cases (ltb (length bs) r)) [
  | inl fits ↦
      ground
        (arith, fits, length-append bs (fill (r - length bs) ps), length-fill (r - length bs) ps)
  | inr full ↦ ground (arith, full)
]

-- The format, the arguments and the pieces that they come to, where the strings stand in `m`, apart
-- from the buffer of `size` bytes at `str`, and are shorter than `f`. The index `spec` says whether
-- a `%` stands before the format.
module _ (f : ℕ) (str : Ptr) (size : ℕ) (m : Memory) where
  -- A string of `n` bytes and its NUL do not meet the buffer.
  abbrev pub IsApart : Ptr → ℕ → Type 0
  IsApart o n = (str + size ≤ o) ⊎ (o + n < str)

  pub data Formats : Bool → List ℕ → List Arg → List (List ℕ) → Type 0 where
    end : {spec : Bool} {ap : List Arg} → Formats spec [] ap []
    plain :
        {c : ℕ} {cs : List ℕ} {ap : List Arg} {ps : List (List ℕ)}
        → c ≢ b'%'
        → Formats false cs ap ps
        → Formats false (c ∷ cs) ap ((c ∷ []) ∷ ps)
    percent :
        {cs : List ℕ} {ap : List Arg} {ps : List (List ℕ)}
        → Formats true cs ap ps
        → Formats false (b'%' ∷ cs) ap ([] ∷ ps)
    conv_s :
        {cs : List ℕ} {ap : List Arg} {ps : List (List ℕ)} {o : Ptr} {bs : List ℕ}
        → CString m o bs
        → IsApart o (length bs)
        → length bs < f
        → Formats false cs ap ps
        → Formats true (b's' ∷ cs) (string o ∷ ap) (bs ∷ ps)
    conv_d :
        {cs : List ℕ} {ap : List Arg} {ps : List (List ℕ)} {d : ℤ} {bs : List ℕ}
        → format_int d ≡ some bs
        → Formats false cs ap ps
        → Formats true (b'd' ∷ cs) (int d ∷ ap) (bs ∷ ps)
    conv_c :
        {cs : List ℕ} {ap : List Arg} {ps : List (List ℕ)} {c : ℤ}
        → Formats false cs ap ps
        → Formats true (b'c' ∷ cs) (int c ∷ ap) ((to_byte c ∷ []) ∷ ps)
    other :
        {c : ℕ} {cs : List ℕ} {ap : List Arg} {ps : List (List ℕ)}
        → c ≢ b's'
        → c ≢ b'd'
        → c ≢ b'c'
        → Formats false cs ap ps
        → Formats true (c ∷ cs) ap ((c ∷ []) ∷ ps)

pub stored-append :
    (m : Memory) (p : Ptr) (xs ys : List ℕ)
    → stored m p (xs ++ ys) ≡ stored (stored m p xs) (p + length xs) ys
stored-append m p [] ys = let e : p + 0 ≡ p = omega arith in rw e refl
stored-append m p (x ∷ xs) ys =
    let e : p + suc (length xs) ≡ suc p + length xs = omega arith in
    stored-append (write m p x) (suc p) xs ys ∙ rw e refl

pub store_all-stored :
    (m : Memory) (p : Ptr) (bs : List ℕ)
    → Mapped m p (length bs)
    → store_all p bs m ≡ ok tt (stored m p bs)
unfolding store_all
store_all-stored m p [] w = refl
store_all-stored m p (b ∷ bs) ((c, w), ws) =
    ground
      (arith, store_all-stored (write m p b) (suc p) bs (Mapped-write m (suc p) p b (length bs) ws))
