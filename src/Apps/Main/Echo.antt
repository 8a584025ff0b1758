-- ===== src/Apps/Main/Echo.antt =====
-- What echo writes.
use os.Prelude.{
  ℕ, suc, ◌+◌, ◌-◌, ◌%◌, ◌*◌, ◌^◌, ◌≤◌, ◌<◌, ◌≡◌, ◌⊎◌, List, [], ◌∷◌, ◌++◌, length, length-append,
  arith, refl, ◌∙◌, false,
}
use os.Prelude.Int.{ℤ, pos, to_int, to_int-small}
use os.Apps.Main.{separator, echo_loop, echo_main}
use os.LibC.Copy.Move.{stored, Holds-stored, SameOutside-stored}
use os.LibC.Format.{string, int, rprintf}
use os.LibC.Format.Fill.{Formats, end, percent, conv_s, conv_c, fill}
use os.LibC.Format.Loop.{vsnprintf-stored}
use os.LibC.Format.Step.{AllMapped-stored}
use os.Machine.{ok}
use os.Machine.Memory.{Ptr, Memory, Prog}
use os.Machine.Memory.Region.{CString, CString-frame, Holds, SameOutside}
use os.Machine.Memory.Store.{AllMapped}
use os.Machine.Memory.Strings.{Strings, Strings-frame}
use os.Machine.Memory.Words.{load64}

-- "%s%c"
abbrev pub format_text : List ℕ
format_text = b'%' ∷ b's' ∷ b'%' ∷ b'c' ∷ []

-- Each argument with a space behind it, and the last with a newline.
pub echoed : List (List ℕ) → List (List ℕ)
echoed [] = []
echoed (w ∷ []) = (w ++ b'\n' ∷ []) ∷ []
echoed (w ∷ v ∷ ws) = (w ++ b' ' ∷ []) ∷ echoed (v ∷ ws)

-- With its separator and a NUL, an argument fits the array of `rprintf`.
abbrev pub AreShort : List (List ℕ) → Type 0
AreShort [] = Unit {0}
AreShort (w ∷ ws) = (length w < 126) × AreShort ws

fill-piece :
    (w : List ℕ) (c : ℕ) → length w < 126 → fill 127 ([] ∷ w ∷ [] ∷ (c ∷ []) ∷ []) ≡ w ++ c ∷ []
unfolding fill
fill-piece w c h = ground arith

-- The array of `rprintf` at `msg`, apart from the format, the strings in the bytes `lo` to `hi` and
-- the `count` entries of `argv`; and the fuel, for as many bytes as a string has.
pub record Layout (f k msg format argv count lo hi : ℕ) : Type 0 where
  pub top : msg + 128 < 2 ^ 64
  pub text : (msg + 128 ≤ lo) ⊎ (hi < msg)
  pub entries : (msg + 128 ≤ argv) ⊎ (argv + 8 * count ≤ msg)
  pub format_at : (msg + 128 ≤ format) ⊎ (format + 4 < msg)
  pub short : hi < lo + f
  pub fuel : 4 < k

Holds-prefix : (m : Memory) (p : Ptr) (xs ys : List ℕ) → Holds m p (xs ++ ys) → Holds m p xs
Holds-prefix m p [] ys h = tt
Holds-prefix m p (x ∷ xs) ys (h, hs) = (h, Holds-prefix m (suc p) xs ys hs)

module _ (os_write : (fd : ℤ) (buf : Ptr) (len : ℕ) → Prog ℤ)
    (f k msg format argv count lo hi : ℕ) where
  -- What echo has in memory is as it was.
  pub record Keeps (m m' : Memory) : Type 0 where
    pub text : (a : Ptr) → lo ≤ a → a ≤ hi → m' a ≡ m a
    pub entries : (a : Ptr) → argv ≤ a → a < argv + 8 * count → m' a ≡ m a
    pub format_at : (a : Ptr) → format ≤ a → a ≤ format + 4 → m' a ≡ m a
    pub array : (a : Ptr) → msg ≤ a → a < msg + 128 → m' a ≡ m a

  -- `os_write` of the array returns, and leaves the memory of echo alone.
  abbrev pub WritesApart : Type 0
  WritesApart =
      (len : ℕ) (m : Memory)
      → (r : ℤ) × (m' : Memory) × (os_write (pos 1) msg len m ≡ ok r m') × Keeps m m'

  -- From one memory to another the texts are written in order, each by one `os_write` from the
  -- array, and besides only that changes.
  pub data Written : Memory → List (List ℕ) → Memory → Type 0 where
    all_written : {m : Memory} → Written m [] m
    write_one :
        {m m1 m2 m' : Memory} {r : ℤ} {t : List ℕ} {ts : List (List ℕ)}
        → SameOutside msg 128 m m1
        → Holds m1 msg t
        → os_write (pos 1) msg (length t) m1 ≡ ok r m2
        → Written m2 ts m'
        → Written m (t ∷ ts) m'

  -- Before argument `i`.
  pub record Ready (m : Memory) (i : ℕ) (ws : List (List ℕ)) : Type 0 where
    pub strings : Strings lo hi m (argv + 8 * i) ws
    pub format_at : CString m format format_text
    pub array : AllMapped m msg 128
    pub few : i + length ws ≤ count
    pub are_short : AreShort ws

  module _ (layout : Layout f k msg format argv count lo hi) (apart : WritesApart) where
    open layout use {top, text, entries, format_at, short, fuel}

    -- One call of `rprintf`.
    pub record Round (m : Memory) (t : Ptr) (w : List ℕ) (c : ℕ) : Type 0 where
      pub mid : Memory
      pub after : Memory
      pub result : ℤ
      pub runs : rprintf os_write f k msg format (string t ∷ int (pos c) ∷ []) m ≡ ok result after
      pub same : SameOutside msg 128 m mid
      pub holds : Holds mid msg (w ++ c ∷ [])
      pub writes : os_write (pos 1) msg (length (w ++ c ∷ [])) mid ≡ ok result after
      pub keeps : Keeps mid after
      pub array : AllMapped mid msg 128

    one_Round :
        (m : Memory) (i : ℕ) (w : List ℕ) (ws : List (List ℕ)) (t c : ℕ)
        → Ready m i (w ∷ ws)
        → CString m t w
        → lo ≤ t
        → t + length w ≤ hi
        → c < 256
        → Round m t w c
    unfolding rprintf
    one_Round m i w ws t c ready here l u byte =
        let e : c % 256 ≡ c = ground arith in
        let pieces = [] ∷ w ∷ [] ∷ (c ∷ []) ∷ [] in
        let bytes = [] ∷ w ∷ [] ∷ (c % 256 ∷ []) ∷ [] in
        let args = string t ∷ int (pos c) ∷ [] in
        let raw : Formats f msg 128 m false format_text args bytes =
          percent
            (conv_s here (omega (arith, text)) (omega (arith, short)) (percent (conv_c end))) in
        let fs : Formats f msg 128 m false format_text args pieces = rw e at raw in
        let (run, few) =
          vsnprintf-stored f msg 128 k m format format_text args pieces fs ready.format_at
            (omega (arith, format_at)) ready.array (omega arith) top fuel in
        let run' = rw (fill-piece w c ready.are_short.0) at run in
        let len : to_int (length (w ++ c ∷ [])) ≡ pos (length (w ++ c ∷ [])) =
          to_int-small _ (omega (arith, length-append w (c ∷ []), ready.are_short.0)) in
        let out : List ℕ = (w ++ c ∷ []) ++ 0 ∷ [] in
        let mid : Memory = stored m msg out in
        let size : length out ≡ length w + 2 =
          omega (arith, length-append (w ++ c ∷ []) (0 ∷ []), length-append w (c ∷ [])) in
        let (r, after, wr, kept) = apart (length (w ++ c ∷ [])) mid in
        record {
          mid = mid;
          after = after;
          result = r;
          runs = ground (arith, run', len, wr);
          same = λ a o. SameOutside-stored m msg out a (omega (arith, size, ready.are_short.0));
          holds = Holds-prefix mid msg (w ++ c ∷ []) (0 ∷ []) (Holds-stored m msg out);
          writes = wr;
          keeps = kept;
          array = AllMapped-stored m msg out msg 128 ready.array;
        }

    Ready-next :
        (m : Memory) (i t c : ℕ) (w : List ℕ) (ws : List (List ℕ))
        → Ready m i (w ∷ ws)
        → (r : Round m t w c) → Ready r.after (i + 1) ws
    Ready-next m i t c w ws ready r =
        let next : argv + 8 * (i + 1) ≡ argv + 8 * i + 8 = omega arith in
        let few = ready.few in
        record {
          strings = rw next (
              Strings-frame lo hi m r.after (argv + 8 * i + 8) ws
                (λ a l u. r.keeps.text a l u ∙ r.same a (omega (arith, text)))
                (λ a l u.
                  r.keeps.entries a (omega arith) (omega (arith, few))
                  ∙ r.same a (omega (arith, entries, few)))
                ready.strings.1);
          format_at =
              CString-frame format format_text
                (λ a l u. r.keeps.format_at a l u ∙ r.same a (omega (arith, format_at)))
                ready.format_at;
          array = λ a l u. let (b, h) = r.array a l u in (b, r.keeps.array a l u ∙ h);
          few = omega (arith, few);
          are_short = ready.are_short.1;
        }

    echoed-cons :
        (w : List ℕ) (ws : List (List ℕ)) (i argc : ℕ)
        → argc ≡ i + length (w ∷ ws)
        → echoed (w ∷ ws) ≡ (w ++ separator i argc ∷ []) ∷ echoed ws
    unfolding echoed
    echoed-cons w [] i argc e = ground (arith, e)
    echoed-cons w (v ∷ ws) i argc e = ground (arith, e)

    echo_loop-next :
        (n i argc t : ℕ) (w : List ℕ) (m : Memory)
        → load64 (argv + 8 * i) m ≡ ok t m
        → (r : Round m t w (separator i argc))
        → echo_loop os_write f k msg format argv argc (suc n) i m
          ≡ echo_loop os_write f k msg format argv argc n (i + 1) r.after
    unfolding echo_loop
    echo_loop-next n i argc t w m e r = ground (arith, e, r.runs)

    echo_loop-Written :
        (i argc : ℕ) (ws : List (List ℕ)) (m : Memory)
        → argc ≡ i + length ws
        → Ready m i ws
        → (m' : Memory) × (echo_loop os_write f k msg format argv argc (length ws) i m
            ≡ ok (pos 0) m')
          × Written m (echoed ws) m'
    unfolding echo_loop echoed
    echo_loop-Written i argc [] m e ready = (m, refl, all_written)
    echo_loop-Written i argc (w ∷ ws) m e ready =
        let ((t, at, here, l, u), rest) = ready.strings in
        let byte : separator i argc < 256 = ground arith in
        let r = one_Round m i w ws t (separator i argc) ready here l u byte in
        let (m', run, written) =
          echo_loop-Written (i + 1) argc ws r.after (omega (arith, e))
            (Ready-next m i t (separator i argc) w ws ready r) in
        (
          m',
          echo_loop-next (length ws) i argc t w m at r ∙ run,
          rw (echoed-cons w ws i argc e) (write_one r.same r.holds r.writes written),
        )

    -- `main` of echo with the arguments `ws`, which begin at entry 1, each shorter than 126 bytes,
    -- where `os_write` returns and leaves its memory alone, returns 0: it has written the arguments
    -- in order, each with a space behind it, and the last with a newline.
    pub echo_main-Written :
        (ws : List (List ℕ)) (m : Memory)
        → Ready m 1 ws
        → (m' : Memory) × (echo_main os_write f k msg format (pos (1 + length ws)) argv m
            ≡ ok (pos 0) m')
          × Written m (echoed ws) m'
    unfolding echo_main
    echo_main-Written ws m ready =
        let (m', run, written) = echo_loop-Written 1 (1 + length ws) ws m refl ready in
        let same : 1 + length ws - 1 ≡ length ws = omega arith in (m', rw same run, written)
