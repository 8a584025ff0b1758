-- ===== src/Apps/Shell/Loop.antt =====
-- `args_loop` against the words of the text that is left.
use os.Prelude.{
  ℕ, zero, suc, ◌+◌, ◌*◌, ◌≤◌, ◌<◌, ◌^◌, ◌≡◌, ◌⊎◌, inl, inr, some, none, List, ◌∷◌, length, arith,
  ap, ◌∙◌, Option-cases,
}
use os.Apps.Shell.{args_loop}
use os.Machine.Memory.Strings.{Strings, CString-apart}
use os.Apps.Shell.Words.{words, words-none, words-some}
use os.LibC.Token.{strtok_r}
use os.LibC.Token.Next.{Cut, strtok_r-none, strtok_r-some}
use os.LibC.Token.Words.{next_token}
use os.Machine.{Run, ok}
use os.Machine.Memory.{Ptr, null, Memory}
use os.Machine.Memory.Frame.{load64-frame}
use os.Machine.Memory.Region.{CString, CString-frame, SameOutside}
use os.Machine.Memory.Store.{
  AllMapped, Mapped_of_all, AllMapped-put64, put64, store64-put64, SameOutside-put64, load64-put64,
}
use os.Machine.Memory.Words.{load64, store64}

-- Where things stand: the text in the bytes `lo` to `hi`, the delimiters `set` at `argsep` and
-- `cap` entries of `argv`, apart from each other.
pub record Layout (f : ℕ) (argv argsep : Ptr) (set : List ℕ) (lo hi cap : ℕ) : Type 0 where
  pub not_null : 0 < argsep
  pub inner : length set < f
  pub sep_text : (argsep + length set < lo) ⊎ (hi < argsep)
  pub array_text : (argv + 8 * cap ≤ lo) ⊎ (hi < argv)
  pub array_sep : (argv + 8 * cap ≤ argsep) ⊎ (argsep + length set < argv)
  pub small : hi < 2 ^ 64
  pub above : 0 < lo

module _ (f : ℕ) (argv argsep : Ptr) (set : List ℕ) (lo hi cap : ℕ)
    (layout : Layout f argv argsep set lo hi cap) where
  open layout use {not_null, inner, sep_text, array_text, array_sep, small, above}

  -- The word `tok` at `t` has been cut off, and `rest` is left at `p`.
  pub record Ready (m : Memory) (t p argc : ℕ) (tok rest : List ℕ) : Type 0 where
    pub token : CString m t tok
    pub remains : CString m p rest
    pub sep : CString m argsep set
    pub array : AllMapped m argv (8 * cap)
    pub from : lo ≤ t
    pub ends : t + length tok ≤ p
    pub inside : p + length rest ≤ hi
    pub room : argc + 1 + length (words set rest) ≤ cap
    pub fuel : length rest < f

  -- The words `ws` stand from entry `argc` on, and only the text from `p` on and these entries have
  -- changed.
  pub record Listed (m : Memory) (p argc n : ℕ) (ws : List (List ℕ)) (r : Run Memory ℕ)
      : Type 0 where
    pub mem : Memory
    pub returns : r ≡ ok (argc + length ws) mem
    pub strings : Strings lo hi mem (argv + 8 * argc) ws
    pub array : AllMapped mem argv (8 * cap)
    pub same :
        (a : Ptr)
        → (a < p) ⊎ (p + n ≤ a)
        → (a < argv + 8 * argc) ⊎ (argv + 8 * cap ≤ a)
        → mem a ≡ m a

  module _ (m : Memory) (t p argc : ℕ) (tok rest : List ℕ) (ready : Ready m t p argc tok rest) where
    open ready use {token, remains, sep, array, from, ends, inside, room, fuel}

    abbrev slot : Ptr
    slot = argv + 8 * argc

    abbrev m1 : Memory
    m1 = put64 m slot t

    stored : store64 slot t m ≡ ok tt m1
    stored =
        store64-put64 m slot t
          (Mapped_of_all m slot 8 (λ a l u. array a (omega arith) (omega arith)))

    elsewhere : SameOutside slot 8 m m1
    elsewhere = SameOutside-put64 m slot t

    token1 : CString m1 t tok
    token1 = CString-frame t tok (λ a l u. elsewhere a (omega arith)) token

    remains1 : CString m1 p rest
    remains1 = CString-frame p rest (λ a l u. elsewhere a (omega arith)) remains

    sep1 : CString m1 argsep set
    sep1 = CString-frame argsep set (λ a l u. elsewhere a (omega arith)) sep

    slot1 : load64 slot m1 ≡ ok t m1
    slot1 = load64-put64 m slot t (omega arith)

    array1 : AllMapped m1 argv (8 * cap)
    array1 = AllMapped-put64 m slot t argv (8 * cap) array

    last :
        (k : ℕ)
        → next_token set rest ≡ none
        → 1 < k
        → Listed m p argc
            (length rest)
            (tok ∷ words set rest)
            (args_loop f argv argsep k t p argc m)
    unfolding args_loop
    last zero e fk = absurd (omega arith)
    last (suc zero) e fk = absurd (omega arith)
    last (suc (suc k)) e fk =
        let done = strtok_r-none f m1 null argsep p rest set not_null fuel inner remains1 sep1 e in
        rw (words-none set rest e) (record {
          mem = m1;
          returns = ground (arith, stored, done);
          strings = ((t, slot1, token1, from, omega arith), tt);
          array = array1;
          same = λ a l u. elsewhere a (omega arith);
        })

    -- The next word is cut off.
    module _ (tok2 rest2 : List ℕ) (e : next_token set rest ≡ some (tok2, rest2)) where
      cut : Cut m1 p rest tok2 rest2 (strtok_r f null argsep p m1)
      cut = strtok_r-some f m1 null argsep p rest set not_null fuel inner remains1 sep1 e

      -- Outside of the rest of the text it changes nothing.
      kept : (a : Ptr) → (a < p) ⊎ (p + length rest ≤ a) → cut.mem a ≡ m1 a
      kept a o = cut.same a o

      ready2 : Ready cut.mem cut.t cut.p (argc + 1) tok2 rest2
      ready2 = record {
        token = cut.token;
        remains = cut.remains;
        sep = CString-frame argsep set (λ a l u. kept a (omega arith)) sep1;
        array = λ a l u. let (b, h) = array1 a l u in (b, kept a (omega arith) ∙ h);
        from = omega (arith, cut.starts);
        ends = cut.ends;
        inside = omega (arith, cut.inside);
        room = omega (arith, ap length (words-some set rest tok2 rest2 e));
        fuel = omega (arith, cut.shrinks);
      }

      strict : t + length tok < p
      strict = elim (CString-apart m1 t p tok rest token1 remains1 ends) [
        | inl nil ↦ absurd (omega (arith, cut.shrinks, ap length nil))
        | inr lt ↦ lt
      ]

      more :
          (k : ℕ)
          → Listed cut.mem cut.p
              (argc + 1)
              (length rest2)
              (tok2 ∷ words set rest2)
              (args_loop f argv argsep k cut.t cut.p (argc + 1) cut.mem)
          → Listed m p argc
              (length rest)
              (tok ∷ tok2 ∷ words set rest2)
              (args_loop f argv argsep (suc k) t p argc m)
      unfolding args_loop
      more k ih = record {
        mem = ih.mem;
        returns = ground (arith, stored, cut.returns, ih.returns);
        strings = (
          (
            t,
            load64-frame m1 ih.mem slot t
                (λ a l u. later a (omega arith) (omega (arith, inner_bounds)) (omega arith)) slot1,
            CString-frame t tok
                (λ a l u.
                  later a (omega (arith, strict)) (omega (arith, strict, inner_bounds))
                    (omega arith))
                token1,
            from,
            omega arith,
          ),
          (let e : argv + 8 * (argc + 1) ≡ slot + 8 = omega arith in rw e at ih.strings),
        );
        array = ih.array;
        same = λ a o o'.
            later a (omega arith) (omega (arith, inner_bounds)) (omega arith)
            ∙ elsewhere a (omega arith);
      }
        where
          inner_bounds : (p ≤ cut.p) × (cut.p + length rest2 ≤ p + length rest)
          inner_bounds = (omega (arith, cut.starts, cut.ends, strict), cut.inside)

          later :
              (a : Ptr)
              → (a < p) ⊎ (p + length rest ≤ a)
              → (a < cut.p) ⊎ (cut.p + length rest2 ≤ a)
              → (a < argv + 8 * (argc + 1)) ⊎ (argv + 8 * cap ≤ a)
              → ih.mem a ≡ m1 a
          later a o o' o'' = ih.same a o' o'' ∙ kept a o

  pub loop-Listed :
      (k : ℕ) (m : Memory) (t p argc : ℕ) (tok rest : List ℕ)
      → Ready m t p argc tok rest
      → length (words set rest) + 1 < k
      → Listed m p argc (length rest) (tok ∷ words set rest) (args_loop f argv argsep k t p argc m)
  loop-Listed zero m t p argc tok rest ready fk = absurd (omega arith)
  loop-Listed (suc k) m t p argc tok rest ready fk = elim (Option-cases (next_token set rest)) [
    | inl e ↦ last m t p argc tok rest ready (suc k) e (omega arith)
    | inr ((tok2, rest2), e) ↦
        let c = cut m t p argc tok rest ready tok2 rest2 e in
        let ih =
          loop-Listed k c.mem c.t c.p (argc + 1) tok2 rest2
            (ready2 m t p argc tok rest ready tok2 rest2 e)
            (omega (arith, ap length (words-some set rest tok2 rest2 e))) in
        rw (words-some set rest tok2 rest2 e) (more m t p argc tok rest ready tok2 rest2 e k ih)
  ]
