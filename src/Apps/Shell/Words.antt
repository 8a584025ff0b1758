-- ===== src/Apps/Shell/Words.antt =====
-- The words of a text, by recursion on it, and that `strtok_r`'s tokens are these.
use os.Prelude.{
  ℕ, ◌+◌, ◌<◌, ◌≤◌, ◌≡◌, refl, sym, ◌∙◌, some, none, List, [], ◌∷◌, arith, length, if◌then◌else◌,
}
use os.LibC.Scan.Span.{contains}
use os.LibC.Token.Next.{skip-nil, skip-cons}
use os.LibC.Token.Words.{skip, word, after, next_token}

-- A word that is not empty, before others.
abbrev pub keep : List ℕ → List (List ℕ) → List (List ℕ)
keep [] ws = ws
keep (b ∷ w) ws = (b ∷ w) ∷ ws

-- The bytes up to the first delimiter, and the words behind it.
abbrev pub split : (set : List ℕ) → List ℕ → List ℕ × List (List ℕ)
split set [] = ([], [])
split set (b ∷ bs) =
    let r = split set bs in if contains set b then ([], keep r.0 r.1) else (b ∷ r.0, r.1)

unfoldable pub words : (set : List ℕ) → List ℕ → List (List ℕ)
words set bs = keep (split set bs).0 (split set bs).1

keep-cons : (w : List ℕ) (ws : List (List ℕ)) → 0 < length w → keep w ws ≡ w ∷ ws
keep-cons [] ws h = elim h [ ]
keep-cons (b ∷ w) ws h = refl

length-keep : (w : List ℕ) (ws : List (List ℕ)) → length (keep w ws) ≤ length w + length ws
length-keep [] ws = omega arith
length-keep (b ∷ w) ws = omega arith

module _ (set : List ℕ) where
  length-split : (bs : List ℕ) → length (split set bs).0 + length (split set bs).1 ≤ length bs
  length-split [] = omega arith
  length-split (b ∷ bs) =
      ground (arith, length-split bs, length-keep (split set bs).0 (split set bs).1)

  -- A text has no more words than bytes.
  pub length-words : (bs : List ℕ) → length (words set bs) ≤ length bs
  unfolding words
  length-words bs = omega (arith, length-split bs, length-keep (split set bs).0 (split set bs).1)

  split-word :
      (bs : List ℕ)
      → ((split set bs).0 ≡ word set bs) × ((split set bs).1 ≡ words set (after set bs))
  unfolding words
  split-word [] = (refl, refl)
  split-word (b ∷ bs) = let (w, ws) = split-word bs in (ground (arith, w), ground (arith, ws))

  words-skip : (bs : List ℕ) → words set (skip set bs) ≡ words set bs
  unfolding words
  words-skip [] = refl
  words-skip (b ∷ bs) = ground (arith, words-skip bs)

  words-word : (bs : List ℕ) → words set bs ≡ keep (word set bs) (words set (after set bs))
  unfolding words
  words-word bs = let (w, ws) = split-word bs in ground (arith, w, ws)

  words-nil : words set [] ≡ []
  unfolding words
  words-nil = refl

  -- What is left of a text behind its leading delimiters begins with a word.
  word-skip : (bs : List ℕ) → 0 < length (skip set bs) → 0 < length (word set (skip set bs))
  word-skip [] h = h
  word-skip (b ∷ bs) h = ground (arith, word-skip bs)

  pub words-none : (bs : List ℕ) → next_token set bs ≡ none → words set bs ≡ []
  words-none bs e = sym (words-skip bs) ∙ rw (skip-nil set bs e) words-nil

  pub words-some :
      (bs tok rest : List ℕ)
      → next_token set bs ≡ some (tok, rest)
      → words set bs ≡ tok ∷ words set rest
  words-some bs tok rest e =
      let (l, w, a) = skip-cons set bs e in
      sym (words-skip bs)
      ∙ words-word (skip set bs)
      ∙ rw (w, a) (keep-cons tok _ (rw w at (word-skip bs l)))
