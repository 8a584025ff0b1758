-- ===== src/LibC/Token/Words.antt =====
-- Tokens of a list of bytes, and what their places in memory hold.
use os.Prelude.{
  ℕ, suc, ◌+◌, ◌≤◌, ◌<◌, ◌≡◌, ◌≢◌, refl, inl, inr, some, none, Option, List, [], ◌∷◌, arith, length,
  ◌∙◌, Bool-cases, true, false, if◌then◌else◌,
}
use os.Machine.Memory.{Ptr, Memory}
use os.Machine.Memory.Region.{CString}
use os.LibC.Scan.Compare.{IsText}
use os.LibC.Scan.Span.{contains, span}

-- The text without its leading delimiters.
abbrev pub skip : List ℕ → List ℕ → List ℕ
skip set [] = []
skip set (b ∷ bs) = if contains set b then skip set bs else b ∷ bs

-- The bytes before the first delimiter, the byte that ends them (0 at the end of the text), and the
-- text behind it.
abbrev pub word : List ℕ → List ℕ → List ℕ
word set [] = []
word set (b ∷ bs) = if contains set b then [] else b ∷ word set bs

abbrev pub stop : List ℕ → List ℕ → ℕ
stop set [] = 0
stop set (b ∷ bs) = if contains set b then b else stop set bs

abbrev pub after : List ℕ → List ℕ → List ℕ
after set [] = []
after set (b ∷ bs) = if contains set b then bs else after set bs

-- The first token of a text and the text behind it.
unfoldable pub next_token : List ℕ → List ℕ → Option (List ℕ × List ℕ)
next_token set bs = elim (skip set bs) [
  | [] ↦ none
  | b ∷ rest ↦ some (word set (b ∷ rest), after set (b ∷ rest))
]

module _ (set : List ℕ) (m : Memory) where
  pub CString-skip :
      (s : Ptr) (bs : List ℕ) → CString m s bs → CString m (s + span true set bs) (skip set bs)
  CString-skip s [] h = let e : s + 0 ≡ s = omega arith in rw e h
  CString-skip s (b ∷ bs) (h, l, u, hs) = elim (Bool-cases (contains set b)) [
    | inl y ↦
        let e : s + suc (span true set bs) ≡ suc s + span true set bs = omega arith in
        rw (y, e) (CString-skip (suc s) bs hs)
    | inr n ↦ let e : s + 0 ≡ s = omega arith in rw (n, e) (h, l, u, hs)
  ]

  pub load-stop :
      (s : Ptr) (bs : List ℕ) → CString m s bs → m (s + span false set bs) ≡ some (stop set bs)
  load-stop s [] h = let e : s + 0 ≡ s = omega arith in rw e h
  load-stop s (b ∷ bs) (h, l, u, hs) = elim (Bool-cases (contains set b)) [
    | inl y ↦ let e : s + 0 ≡ s = omega arith in rw (y, e) h
    | inr n ↦
        let e : s + suc (span false set bs) ≡ suc s + span false set bs = omega arith in
        rw (n, e) (load-stop (suc s) bs hs)
  ]

  pub CString-after :
      (s : Ptr) (bs : List ℕ)
      → CString m s bs
      → stop set bs ≢ 0
      → CString m (s + span false set bs + 1) (after set bs)
  CString-after s [] h ne = absurd (ne refl)
  CString-after s (b ∷ bs) (h, l, u, hs) ne = elim (Bool-cases (contains set b)) [
    | inl y ↦ let e : s + 0 + 1 ≡ suc s = omega arith in rw (y, e) hs
    | inr n ↦
        let e : s + suc (span false set bs) + 1 ≡ suc s + span false set bs + 1 = omega arith in
        rw (n, e) (CString-after (suc s) bs hs (ground arith))
  ]

  pub CString-word :
      {g : Memory} (s : Ptr) (bs : List ℕ)
      → CString m s bs
      → g (s + span false set bs) ≡ some 0
      → ((a : Ptr) → a < s + span false set bs → g a ≡ m a)
      → CString g s (word set bs)
  CString-word s [] h z same = let e : s + 0 ≡ s = omega arith in rw e at z
  CString-word {g} s (b ∷ bs) (h, l, u, hs) z same = elim (Bool-cases (contains set b)) [
    | inl y ↦ rw y (let e : s + 0 ≡ s = omega arith in rw (y, e) at z)
    | inr n ↦
        let e : s + span false set (b ∷ bs) ≡ suc s + span false set bs = ground arith in
        rw n (
          same s (omega arith) ∙ h,
          l,
          u,
          CString-word (suc s) bs hs (rw e at z) (λ a p. same a (omega arith)),
        )
  ]

pub after_of_stop_zero : (set bs : List ℕ) → IsText bs → stop set bs ≡ 0 → after set bs ≡ []
after_of_stop_zero set [] t h = refl
after_of_stop_zero set (b ∷ bs) (l, u, t) h = ground (arith, after_of_stop_zero set bs)

module _ (set : List ℕ) where
  pub length-skip : (bs : List ℕ) → span true set bs + length (skip set bs) ≡ length bs
  length-skip [] = omega arith
  length-skip (b ∷ bs) = ground (arith, length-skip bs)

  pub length-word : (bs : List ℕ) → length (word set bs) ≡ span false set bs
  length-word [] = refl
  length-word (b ∷ bs) = ground (arith, length-word bs)

  pub length-after :
      (bs : List ℕ)
      → IsText bs
      → stop set bs ≢ 0
      → span false set bs + 1 + length (after set bs) ≡ length bs
  length-after [] t ne = absurd (ne refl)
  length-after (b ∷ bs) (l, u, t) ne = ground (arith, length-after bs t)

  pub length-span : (bs : List ℕ) → span false set bs ≤ length bs
  length-span [] = omega arith
  length-span (b ∷ bs) = ground (arith, length-span bs)
