-- ===== src/LibC/Format/Step.antt =====
-- What the loop of `vsnprintf` does at one character of the format.
use os.Prelude.{
  ℕ, suc, ◌+◌, ◌-◌, ◌^◌, ◌≡◌, ◌≤◌, ◌<◌, ◌≢◌, ◌⊎◌, ◌==◌, ◌&&◌, not, Bool, true, false, List, [], ◌∷◌,
  length, length-append, some, ltb, arith, refl, Bool-cases, inl, inr, ◌∙◌,
}
use os.LibC.Copy.Move.{stored, memcpy-stored, SameOutside-stored}
use os.LibC.Format.{
  Arg, string, Piece, local_array, in_memory, piece_size, copy_piece, convert, format_loop,
  room_behind,
}
use os.LibC.Format.Fill.{IsApart, fill, fill-fits, fill-full, stored-append, store_all-stored}
use os.LibC.Scan.Length.{strlen_lem}
use os.Machine.{ok}
use os.Machine.Memory.{Ptr, Memory, write}
use os.Machine.Memory.Region.{Holds, CString, Mapped, SameOutside, CString-frame}
use os.Machine.Memory.Store.{AllMapped, Mapped_of_all}

pub AllMapped-stored :
    (m : Memory) (d : Ptr) (bs : List ℕ) (p n : ℕ) → AllMapped m p n → AllMapped (stored m d bs) p n
AllMapped-stored m d [] p n h = h
AllMapped-stored m d (b ∷ bs) p n h = AllMapped-stored (write m d b) (suc d) bs p n (λ a l u.
    elim (Bool-cases (a == d)) [
      | inl e ↦ (b, rw e)
      | inr e ↦ let (c, hc) = h a l u in (c, rw e hc)
    ])

CString-Holds : (m : Memory) (p : Ptr) (bs : List ℕ) → CString m p bs → Holds m p bs
CString-Holds m p [] h = tt
CString-Holds m p (b ∷ bs) (h, l, u, hs) = (h, CString-Holds m (suc p) bs hs)

module _ (f : ℕ) (str : Ptr) (size : ℕ) where
  -- From the loop's state at `p` on, with `r` bytes of room: what one character comes to.
  unfoldable pub Fills :
      (k r : ℕ) (m : Memory) (format p : Ptr) (spec : Bool) (ap : List Arg) (ps : List (List ℕ))
      → Type 0
  Fills k r m format p spec ap ps =
      format_loop f k str size format spec p ap m
      ≡ ok (p + length (fill r ps)) (stored m p (fill r ps))

  pub copies_local :
      (m : Memory) (p : Ptr) (bs : List ℕ)
      → Mapped m p (length bs)
      → copy_piece p (local_array bs) m ≡ ok tt (stored m p bs)
  unfolding copy_piece
  copies_local m p bs w = store_all-stored m p bs w

  copies_string :
      (m : Memory) (p o : Ptr) (bs : List ℕ)
      → Holds m o bs
      → Mapped m p (length bs)
      → (p + length bs ≤ o) ⊎ (o + length bs ≤ p)
      → copy_piece p (in_memory o (length bs)) m ≡ ok tt (stored m p bs)
  unfolding copy_piece
  copies_string m p o bs h w apart = rw (memcpy-stored m p o bs h w apart) refl

  Fills-fits :
      (k r : ℕ) (m : Memory) (format p : Ptr) (spec : Bool) (c : ℕ) (ap ap' : List Arg)
      (piece : Piece) (bs : List ℕ) (ps : List (List ℕ))
      → m format ≡ some c
      → 0 < c
      → convert f spec c ap m ≡ ok (piece, ap') m
      → piece_size piece ≡ length bs
      → room_behind str size p ≡ r
      → length bs < r
      → copy_piece p piece m ≡ ok tt (stored m p bs)
      → Fills k
          (r - length bs)
          (stored m p bs)
          (suc format)
          (p + length bs)
          (not spec && (c == b'%'))
          ap'
          ps
      → Fills (suc k) r m format p spec ap (bs ∷ ps)
  unfolding format_loop Fills
  Fills-fits k r m format p spec c ap ap' piece bs ps here nul conv sized room fits copy rest =
      let F = fill (r - length bs) ps in
      let ends : p + length (fill r (bs ∷ ps)) ≡ p + length bs + length F =
        rw (fill-fits r bs ps fits) (omega (arith, length-append bs F)) in
      let leaves : stored m p (fill r (bs ∷ ps)) ≡ stored (stored m p bs) (p + length bs) F =
        rw (fill-fits r bs ps fits) (stored-append m p bs F) in
      rw (ends, leaves) (ground (arith, here, nul, conv, sized, room, fits, copy, rest))

  Fills-full :
      (k r : ℕ) (m : Memory) (format p : Ptr) (spec : Bool) (c : ℕ) (ap ap' : List Arg)
      (piece : Piece) (bs : List ℕ) (ps : List (List ℕ))
      → m format ≡ some c
      → 0 < c
      → convert f spec c ap m ≡ ok (piece, ap') m
      → piece_size piece ≡ length bs
      → room_behind str size p ≡ r
      → r ≤ length bs
      → Fills (suc k) r m format p spec ap (bs ∷ ps)
  unfolding format_loop Fills
  Fills-full k r m format p spec c ap ap' piece bs ps here nul conv sized room full =
      rw (fill-full r bs ps full) (ground (arith, here, nul, conv, sized, room, full))

  step :
      (k r : ℕ) (m : Memory) (format p : Ptr) (spec : Bool) (c : ℕ) (ap ap' : List Arg)
      (piece : Piece) (bs : List ℕ) (ps : List (List ℕ))
      → m format ≡ some c
      → 0 < c
      → convert f spec c ap m ≡ ok (piece, ap') m
      → piece_size piece ≡ length bs
      → room_behind str size p ≡ r
      → ((length bs < r) → copy_piece p piece m ≡ ok tt (stored m p bs))
      → ((length bs < r)
          → Fills k
              (r - length bs)
              (stored m p bs)
              (suc format)
              (p + length bs)
              (not spec && (c == b'%'))
              ap'
              ps)
      → Fills (suc k) r m format p spec ap (bs ∷ ps)
  step k r m format p spec c ap ap' piece bs ps here nul conv sized room copy rest =
      elim (Bool-cases (ltb (length bs) r)) [
        | inl e ↦
            let fits : length bs < r = ground (arith, e) in
            Fills-fits k r m format p spec c ap ap' piece bs ps here nul conv sized room fits
              (copy fits) (rest fits)
        | inr e ↦
            Fills-full k r m format p spec c ap ap' piece bs ps here nul conv sized room
              (ground (arith, e))
      ]

  -- The state of the loop: at `p`, with `r` bytes of room, only the buffer has changed since `m0`.
  pub record State (m0 m : Memory) (p r : ℕ) : Type 0 where
    pub same : SameOutside str size m0 m
    pub mapped : AllMapped m str size
    pub above : str ≤ p
    pub room : p + r + 1 ≡ str + size
    pub top : str + size < 2 ^ 64

  room_behind-room : {m0 m : Memory} {p r : ℕ} → State m0 m p r → room_behind str size p ≡ r
  room_behind-room st = let e = st.room in let t = st.top in omega arith

  -- A piece that fits is written to mapped bytes.
  State-Mapped : {m0 m : Memory} {p r : ℕ} (n : ℕ) → State m0 m p r → n < r → Mapped m p n
  State-Mapped {p = p} n st h =
      let e = st.room in
      let u = st.above in Mapped_of_all _ p n (λ a l g. st.mapped a (omega arith) (omega arith))

  State-next :
      {m0 m : Memory} {p r : ℕ} (bs : List ℕ)
      → State m0 m p r
      → length bs < r
      → State m0 (stored m p bs) (p + length bs) (r - length bs)
  State-next {m0} {m} {p} bs st h =
      let e = st.room in
      let u = st.above in
      record {
        same = λ a o. SameOutside-stored m p bs a (omega arith) ∙ st.same a o;
        mapped = AllMapped-stored m p bs str size st.mapped;
        above = omega arith;
        room = omega arith;
        top = st.top;
      }

  pub at_char :
      (k r : ℕ) (m0 m : Memory) (format p : Ptr) (n : ℕ) (spec : Bool) (c : ℕ) (ap ap' : List Arg)
      (piece : Piece) (bs : List ℕ) (ps : List (List ℕ))
      → m0 format ≡ some c
      → 0 < c
      → IsApart f str size m0 format n
      → State m0 m p r
      → convert f spec c ap m ≡ ok (piece, ap') m
      → piece_size piece ≡ length bs
      → (Mapped m p (length bs) → (length bs < r) → copy_piece p piece m ≡ ok tt (stored m p bs))
      → (State m0 (stored m p bs) (p + length bs) (r - length bs)
          → Fills k
              (r - length bs)
              (stored m p bs)
              (suc format)
              (p + length bs)
              (not spec && (c == b'%'))
              ap'
              ps)
      → Fills (suc k) r m format p spec ap (bs ∷ ps)
  at_char k r m0 m format p n spec c ap ap' piece bs ps here nul apart st conv sized copy rest =
      step k r m format p spec c ap ap' piece bs ps (st.same format (omega arith) ∙ here) nul conv
        sized (room_behind-room st) (λ fits. copy (State-Mapped (length bs) st fits) fits)
        (λ fits. rest (State-next bs st fits))

  -- A character by itself.
  pub plain-Fills :
      (k r : ℕ) (m0 m : Memory) (format p : Ptr) (n : ℕ) (c : ℕ) (ap : List Arg)
      (ps : List (List ℕ))
      → c ≢ b'%'
      → m0 format ≡ some c
      → 0 < c
      → IsApart f str size m0 format n
      → State m0 m p r
      → (State m0 (stored m p (c ∷ [])) (p + 1) (r - 1)
          → Fills k (r - 1) (stored m p (c ∷ [])) (suc format) (p + 1) false ap ps)
      → Fills (suc k) r m format p false ap ((c ∷ []) ∷ ps)
  unfolding convert
  plain-Fills k r m0 m format p n c ap ps ne here nul apart st rest =
      let e : (c == b'%') ≡ false = ground (arith, ne) in
      at_char k r m0 m format p n false c ap ap (local_array (c ∷ [])) (c ∷ []) ps here nul apart st
        (rw e refl) refl (λ w fits. copies_local m p (c ∷ []) w) (λ s. rw e (rest s))

  -- What a conversion comes to where it is a local array.
  pub conv-Fills :
      (k r : ℕ) (m0 m : Memory) (format p : Ptr) (n : ℕ) (c : ℕ) (ap ap' : List Arg) (bs : List ℕ)
      (ps : List (List ℕ))
      → convert f true c ap m ≡ ok (local_array bs, ap') m
      → m0 format ≡ some c
      → 0 < c
      → IsApart f str size m0 format n
      → State m0 m p r
      → (State m0 (stored m p bs) (p + length bs) (r - length bs)
          → Fills k (r - length bs) (stored m p bs) (suc format) (p + length bs) false ap' ps)
      → Fills (suc k) r m format p true ap (bs ∷ ps)
  conv-Fills k r m0 m format p n c ap ap' bs ps conv here nul apart st rest =
      at_char k r m0 m format p n true c ap ap' (local_array bs) bs ps here nul apart st conv refl
        (λ w fits. copies_local m p bs w) rest

  -- A string: it is read where the buffer has not been written.
  pub string-Fills :
      (k r : ℕ) (m0 m : Memory) (format p : Ptr) (n : ℕ) (ap : List Arg) (o : Ptr) (bs : List ℕ)
      (ps : List (List ℕ))
      → CString m0 o bs
      → IsApart f str size m0 o (length bs)
      → length bs < f
      → m0 format ≡ some b's'
      → IsApart f str size m0 format n
      → State m0 m p r
      → (State m0 (stored m p bs) (p + length bs) (r - length bs)
          → Fills k (r - length bs) (stored m p bs) (suc format) (p + length bs) false ap ps)
      → Fills (suc k) r m format p true (string o ∷ ap) (bs ∷ ps)
  unfolding convert
  string-Fills k r m0 m format p n ap o bs ps text off fuel here apart st rest =
      let there : CString m o bs =
        CString-frame o bs (λ a l u. st.same a (omega (arith, off))) text in
      let e = st.room in
      let u = st.above in
      at_char k r m0 m format p n true b's' (string o ∷ ap) ap (in_memory o (length bs)) bs ps here
        (omega arith) apart st (rw (strlen_lem f o bs fuel there) refl) refl
        (λ w fits. copies_string m p o bs (CString-Holds m o bs there) w (omega arith)) rest
