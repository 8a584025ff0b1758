-- ===== src/LibC/Format/Loop.antt =====
-- `vsnprintf` writes the pieces that fit.
use os.Prelude.{
  ℕ, zero, suc, ◌+◌, ◌-◌, ◌^◌, ◌≡◌, ◌<◌, ◌≢◌, Bool, true, false, List, [], ◌∷◌, ◌++◌, length,
  length-append, some, arith, refl, ◌∙◌,
}
use os.LibC.Copy.Move.{stored, SameOutside-stored, Holds-stored}
use os.LibC.Decimal.{format_int}
use os.Prelude.Int.{ℤ, to_int}
use os.LibC.Format.{Arg, string, int, local_array, convert, format_loop, vsnprintf}
use os.LibC.Format.Step.{
  AllMapped-stored, Fills, State, at_char, plain-Fills, conv-Fills, string-Fills, copies_local,
}
use os.LibC.Format.Fill.{
  Formats, end, plain, percent, conv_s, conv_d, conv_c, other, IsApart, fill, length-fill,
  stored-append,
}
use os.Machine.{ok}
use os.Machine.Memory.{Ptr, Memory, write}
use os.Machine.Memory.Region.{Holds, CString, SameOutside}
use os.Machine.Memory.Store.{AllMapped}

module _ (f : ℕ) (str : Ptr) (size : ℕ) where
  format_loop-end :
      (k r : ℕ) (m : Memory) (format p : Ptr) (spec : Bool) (ap : List Arg)
      → m format ≡ some 0
      → Fills f str size (suc k) r m format p spec ap []
  unfolding Fills format_loop fill
  format_loop-end k r m format p spec ap here = ground (arith, here)

  convert-other :
      (c : ℕ) (ap : List Arg) (m : Memory)
      → c ≢ b's'
      → c ≢ b'd'
      → c ≢ b'c'
      → convert f true c ap m ≡ ok (local_array (c ∷ []), ap) m
  unfolding convert
  convert-other c ap m no_s no_d no_c = ground (arith, no_s, no_d, no_c)

  convert-conv_d :
      (d : ℤ) (ap : List Arg) (bs : List ℕ) (m : Memory)
      → format_int d ≡ some bs
      → convert f true b'd' (int d ∷ ap) m ≡ ok (local_array bs, ap) m
  unfolding convert
  convert-conv_d d ap bs m e = ground (arith, e)

  format_loop-Fills :
      (k r : ℕ) (m0 m : Memory) (format p : Ptr) (spec : Bool) (fmt : List ℕ) (ap : List Arg)
      (ps : List (List ℕ))
      → Formats f str size m0 spec fmt ap ps
      → CString m0 format fmt
      → IsApart f str size m0 format (length fmt)
      → State f str size m0 m p r
      → length fmt < k
      → Fills f str size k r m format p spec ap ps
  unfolding convert
  format_loop-Fills zero r m0 m format p spec fmt ap ps fs text apart st fuel = absurd (omega arith)
  format_loop-Fills (suc k) r m0 m format p spec [] ap [] end text apart st fuel =
      format_loop-end k r m format p spec ap (st.same format (omega arith) ∙ text)
  format_loop-Fills (suc k) r m0 m format p false (c ∷ cs) ap (bs ∷ ps) (plain ne fs)
        (here, nul, u, text) apart st fuel =
      plain-Fills f str size k r m0 m format p (length (c ∷ cs)) c ap ps ne here nul apart st (λ s.
        format_loop-Fills k _ m0 _ (suc format) _ false cs ap ps fs text (omega arith) s
          (omega arith))
  format_loop-Fills (suc k) r m0 m format p false (c ∷ cs) ap (bs ∷ ps) (percent fs)
        (here, nul, u, text) apart st fuel =
      at_char f str size k r m0 m format p (length (c ∷ cs)) false c ap ap (local_array []) [] ps
        here nul apart st refl refl (λ w fits. copies_local f str size m p [] w)
        (λ s.
          format_loop-Fills k _ m0 _ (suc format) _ true cs ap ps fs text (omega arith) s
            (omega arith))
  format_loop-Fills (suc k) r m0 m format p true (c ∷ cs) (string o ∷ ap) (bs ∷ ps)
        (conv_s str_at off short fs) (here, nul, u, text) apart st fuel =
      string-Fills f str size k r m0 m format p (length (c ∷ cs)) ap o bs ps str_at off short here
        apart st
        (λ s.
          format_loop-Fills k _ m0 _ (suc format) _ false cs ap ps fs text (omega arith) s
            (omega arith))
  format_loop-Fills (suc k) r m0 m format p true (c ∷ cs) (int d ∷ ap) (bs ∷ ps) (conv_d e fs)
        (here, nul, u, text) apart st fuel =
      conv-Fills f str size k r m0 m format p (length (c ∷ cs)) c (int d ∷ ap) ap bs ps
        (convert-conv_d d ap bs m e) here nul apart st
        (λ s.
          format_loop-Fills k _ m0 _ (suc format) _ false cs ap ps fs text (omega arith) s
            (omega arith))
  format_loop-Fills (suc k) r m0 m format p true (c ∷ cs) (int d ∷ ap) (bs ∷ ps) (conv_c fs)
        (here, nul, u, text) apart st fuel =
      conv-Fills f str size k r m0 m format p (length (c ∷ cs)) c (int d ∷ ap) ap bs ps refl here
        nul apart st
        (λ s.
          format_loop-Fills k _ m0 _ (suc format) _ false cs ap ps fs text (omega arith) s
            (omega arith))
  format_loop-Fills (suc k) r m0 m format p true (c ∷ cs) ap (bs ∷ ps) (other no_s no_d no_c fs)
        (here, nul, u, text) apart st fuel =
      conv-Fills f str size k r m0 m format p (length (c ∷ cs)) c ap ap (c ∷ []) ps
        (convert-other c ap m no_s no_d no_c) here nul apart st
        (λ s.
          format_loop-Fills k _ m0 _ (suc format) _ false cs ap ps fs text (omega arith) s
            (omega arith))
  format_loop-Fills (suc k) r m0 m format p spec [] ap (bs ∷ ps) fs text apart st fuel = elim fs [ ]
  format_loop-Fills (suc k) r m0 m format p false (c ∷ cs) ap [] fs text apart st fuel = elim fs [ ]
  format_loop-Fills (suc k) r m0 m format p true (c ∷ cs) ap [] fs text apart st fuel = elim fs [ ]

  vsnprintf-ends :
      (k : ℕ) (m m1 : Memory) (format : Ptr) (ap : List Arg) (n b : ℕ)
      → format_loop f k str size format false str ap m ≡ ok (str + n) m1
      → m1 (str + n) ≡ some b
      → vsnprintf f k str size format ap m ≡ ok (to_int n) (write m1 (str + n) 0)
  unfolding vsnprintf
  vsnprintf-ends k m m1 format ap n b run there = ground (arith, run, there)

  -- The text and its NUL are stored at the start of the buffer.
  pub vsnprintf-stored :
      (k : ℕ) (m : Memory) (format : Ptr) (fmt : List ℕ) (ap : List Arg) (ps : List (List ℕ))
      → Formats f str size m false fmt ap ps
      → CString m format fmt
      → IsApart f str size m format (length fmt)
      → AllMapped m str size
      → 0 < size
      → str + size < 2 ^ 64
      → length fmt < k
      → let out = fill (size - 1) ps in
        (vsnprintf f k str size format ap m
          ≡ ok (to_int (length out)) (stored m str (out ++ 0 ∷ [])))
        × (length out < size)
  unfolding Fills
  vsnprintf-stored k m format fmt ap ps fs text apart mapped pos top fuel =
      let out = fill (size - 1) ps in
      let st : State f str size m m str (size - 1) = record {
        same = λ a o. refl;
        mapped = mapped;
        above = omega arith;
        room = omega arith;
        top = top;
      } in
      let run =
        format_loop-Fills k (size - 1) m m format str false fmt ap ps fs text apart st fuel in
      let few : length out < size = omega (arith, length-fill (size - 1) ps) in
      let there : AllMapped (stored m str out) str size =
        AllMapped-stored m str out str size mapped in
      let end : Ptr = str + length out in
      let (b, at_end) = there end (omega arith) (omega arith) in
      let whole : stored m str (out ++ 0 ∷ []) ≡ write (stored m str out) end 0 =
        stored-append m str out (0 ∷ []) in
      (rw whole (vsnprintf-ends k m _ format ap (length out) b run at_end), few)

  -- For a format with arguments of the types that it names, with strings shorter than their fuel,
  -- all apart from a mapped buffer of at least one byte, and with more fuel than the format has
  -- characters: `vsnprintf` writes the pieces of the text up to the first that is not shorter than
  -- the room left, and a NUL behind them. It returns their length as an `int`; the length is less
  -- than the size. It changes nothing outside of the buffer.
  pub vsnprintf_lem :
      (k : ℕ) (m : Memory) (format : Ptr) (fmt : List ℕ) (ap : List Arg) (ps : List (List ℕ))
      → Formats f str size m false fmt ap ps
      → CString m format fmt
      → IsApart f str size m format (length fmt)
      → AllMapped m str size
      → 0 < size
      → str + size < 2 ^ 64
      → length fmt < k
      → let out = fill (size - 1) ps in
        (m' : Memory) × (vsnprintf f k str size format ap m ≡ ok (to_int (length out)) m')
        × (length out < size)
        × Holds m' str (out ++ 0 ∷ [])
        × SameOutside str size m m'
  vsnprintf_lem k m format fmt ap ps fs text apart mapped pos top fuel =
      let out = fill (size - 1) ps in
      let (run, few) = vsnprintf-stored k m format fmt ap ps fs text apart mapped pos top fuel in
      (
        stored m str (out ++ 0 ∷ []),
        run,
        few,
        Holds-stored m str (out ++ 0 ∷ []),
        λ a o.
            SameOutside-stored m str (out ++ 0 ∷ []) a (omega (arith, length-append out (0 ∷ []))),
      )
