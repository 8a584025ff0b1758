-- ===== src/LibC/Token/Next.antt =====
-- `strtok_r` against the tokens of a list.
use os.Prelude.{
  ℕ, zero, suc, ◌+◌, ◌≤◌, ◌<◌, ◌≡◌, ◌≢◌, refl, inl, inr, some, none, List, [], ◌∷◌, arith, length,
  ◌∙◌, ◌==◌, Bool-cases, true, false, if◌then◌else◌,
}
use os.Machine.{Run, ok}
use os.Machine.Memory.{Ptr, null, Memory, write}
use os.Machine.Memory.Region.{CString, CString-frame, SameOutside}
use os.LibC.Scan.Compare.{CString-IsText}
use os.LibC.Scan.Span.{span, strspn-span, strcspn-span}
use os.LibC.Token.{cut_token, strtok_r}
use os.LibC.Token.Words.{
  skip, word, stop, after, next_token, CString-skip, load-stop, CString-after, CString-word,
  after_of_stop_zero, length-skip, length-word, length-after, length-span,
}

-- A call on the text `bs` at `s` returned the token at `t` and left the rest of the text at `p`: it
-- wrote inside the text only, and token, end and rest follow each other there.
pub record Cut (m : Memory) (s : Ptr) (bs tok rest : List ℕ) (r : Run Memory (Ptr × Ptr))
    : Type 0 where
  pub t : Ptr
  pub p : Ptr
  pub mem : Memory
  pub returns : r ≡ ok (t, p) mem
  pub token : CString mem t tok
  pub remains : CString mem p rest
  pub same : SameOutside s (length bs) m mem
  pub starts : s ≤ t
  pub ends : t + length tok ≤ p
  pub inside : p + length rest ≤ s + length bs
  pub shrinks : length rest < length bs

module _ (k : ℕ) (m : Memory) (s delim : Ptr) (bs set : List ℕ) (not_null : 0 < delim)
    (fuel : length bs < k) (inner : length set < k) (h : CString m s bs)
    (ht : CString m delim set) where
  cut_at_end : stop set bs ≡ 0 → cut_token k s delim m ≡ ok (s, s + span false set bs) m
  unfolding cut_token
  cut_at_end e =
      ground (arith, strcspn-span k s delim bs set not_null fuel inner h ht, load-stop set m s bs h)

  cut_at_delim :
      stop set bs ≢ 0
      → cut_token k s delim m
        ≡ ok (s, s + span false set bs + 1) (write m (s + span false set bs) 0)
  unfolding cut_token
  cut_at_delim ne =
      ground (arith, strcspn-span k s delim bs set not_null fuel inner h ht, load-stop set m s bs h)

  cut_token-Cut : 0 < length bs → Cut m s bs (word set bs) (after set bs) (cut_token k s delim m)
  cut_token-Cut pos = elim (Bool-cases (stop set bs == 0)) [
    | inl y ↦
        let e : stop set bs ≡ 0 = ground arith in
        let nil : after set bs ≡ [] = after_of_stop_zero set bs (CString-IsText m s bs h) e in
        let z : m (s + span false set bs) ≡ some 0 = load-stop set m s bs h ∙ ground arith in
        record {
          t = s;
          p = s + span false set bs;
          mem = m;
          returns = cut_at_end e;
          token = CString-word set m s bs h z (λ a l. refl);
          remains = rw nil z;
          same = λ a o. refl;
          starts = omega arith;
          ends = omega (arith, length-word set bs);
          inside = rw nil (omega (arith, length-span set bs));
          shrinks = rw nil pos;
        }
    | inr n ↦
        let ne : stop set bs ≢ 0 = ground arith in
        let len = length-after set bs (CString-IsText m s bs h) ne in
        record {
          t = s;
          p = s + span false set bs + 1;
          mem = write m (s + span false set bs) 0;
          returns = cut_at_delim ne;
          token = CString-word set m s bs h (ground arith) (λ a l. ground arith);
          remains = CString-frame _ _ (λ a l u. ground arith) (CString-after set m s bs h ne);
          same = λ a o. ground arith;
          starts = omega arith;
          ends = omega (arith, length-word set bs);
          inside = omega arith;
          shrinks = omega arith;
        }
  ]

module _ {m : Memory} {s : Ptr} {bs rest : List ℕ} where
  -- A cut of the text behind the leading delimiters is a cut of the whole text.
  Cut-extend :
      (tok bs' : List ℕ) (n : ℕ) {r : Run Memory (Ptr × Ptr)}
      → n + length bs' ≡ length bs
      → Cut m (s + n) bs' tok rest r
      → Cut m s bs tok rest r
  Cut-extend tok bs' n e c = record {
    t = t;
    p = p;
    mem = mem;
    returns = returns;
    token = token;
    remains = remains;
    same = λ a o. same a (omega arith);
    starts = omega arith;
    ends = ends;
    inside = omega arith;
    shrinks = omega arith;
  }
    where
      open c use {t, p, mem, returns, token, remains, same, starts, ends, inside, shrinks}

pub skip-nil : (set bs : List ℕ) → next_token set bs ≡ none → skip set bs ≡ []
unfolding next_token
skip-nil set bs e = ground arith

pub skip-cons :
    (set bs : List ℕ) {tok rest : List ℕ}
    → next_token set bs ≡ some (tok, rest)
    → (0 < length (skip set bs)) × (word set (skip set bs) ≡ tok) × (after set (skip set bs) ≡ rest)
unfolding next_token
skip-cons set bs e = ground arith

pos_of_CString :
    (m : Memory) (s : Ptr) (bs : List ℕ)
    → CString m s bs
    → 0 < length bs
    → (b : ℕ) × (m s ≡ some (suc b))
pos_of_CString m s [] h l = elim l [ ]
pos_of_CString m s (zero ∷ bs) (h, p, u, hs) l = elim p [ ]
pos_of_CString m s (suc b ∷ bs) (h, p, u, hs) l = (b, h)

module _ (k : ℕ) (m : Memory) (str delim saved : Ptr) (bs set : List ℕ) (not_null : 0 < delim)
    (fuel : length bs < k) (inner : length set < k)
    (h : CString m (if str == null then saved else str) bs) (ht : CString m delim set) where
  -- `strtok_r` of a text with no token returns NULL, leaves `*saveptr` at the end of the text, and
  -- changes nothing. The text stands at `str`, or at `*saveptr` where `str` is NULL.
  pub strtok_r-none :
      next_token set bs ≡ none
      → strtok_r k str delim saved m ≡ ok (null, (if str == null then saved else str) + length bs) m
  unfolding strtok_r
  strtok_r-none e =
      let s : Ptr = if str == null then saved else str in
      let nil : skip set bs ≡ [] = skip-nil set bs e in
      let here : CString m (s + span true set bs) (skip set bs) = CString-skip set m s bs h in
      let z : m (s + span true set bs) ≡ some 0 = rw nil at here in
      let len : span true set bs + length {A = ℕ} [] ≡ length bs = rw nil at (length-skip set bs) in
      let all : span true set bs ≡ length bs = omega arith in
      ground (arith, strspn-span k s delim bs set not_null fuel inner h ht)

  -- `strtok_r` of a text with a token returns it as a C string inside the text and leaves
  -- `*saveptr` at the text behind it; it writes inside the text only, and the rest is shorter.
  pub strtok_r-some :
      {tok rest : List ℕ}
      → next_token set bs ≡ some (tok, rest)
      → Cut m (if str == null then saved else str) bs tok rest (strtok_r k str delim saved m)
  unfolding strtok_r
  strtok_r-some {tok} {rest} e =
      let s : Ptr = if str == null then saved else str in
      let n : ℕ = span true set bs in
      let (l, w, a) = skip-cons set bs e in
      let here : CString m (s + n) (skip set bs) = CString-skip set m s bs h in
      let (b, hb) = pos_of_CString m (s + n) (skip set bs) here l in
      let len : n + length (skip set bs) ≡ length bs = length-skip set bs in
      let run : strtok_r k str delim saved m ≡ cut_token k (s + n) delim m =
        ground (arith, strspn-span k s delim bs set not_null fuel inner h ht) in
      let cut : Cut m (s + n) (skip set bs) tok rest (cut_token k (s + n) delim m) =
        rw (← w, ← a)
          (cut_token-Cut k m (s + n) delim (skip set bs) set not_null (omega arith) inner here ht
            l) in
      rw run (Cut-extend tok (skip set bs) n len cut)
