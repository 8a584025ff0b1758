-- ===== src/Apps/Shell/Split.antt =====
-- `split_command` against the words of the text.
use os.Prelude.{
  ℕ, zero, suc, ◌+◌, ◌*◌, ◌≤◌, ◌<◌, ◌≡◌, ◌⊎◌, inl, inr, List, ◌∷◌, length, arith, ◌∙◌, refl,
  Option-cases, if◌then◌else◌, ◌==◌,
}
use os.Apps.Shell.{args_loop, split_command}
use os.Machine.Memory.Strings.{Strings, Strings-frame, SameOutsideBoth}
use os.Apps.Shell.Words.{words, length-words, words-none, words-some}
use os.LibC.Token.{strtok_r}
use os.LibC.Token.Next.{Cut, strtok_r-none, strtok_r-some}
use os.LibC.Token.Words.{next_token}
use os.Machine.{Run, ok, ◌>>=◌}
use os.Machine.Memory.{Ptr, null, Memory}
use os.Machine.Memory.Region.{CString, CString-frame, SameOutside}
use os.Machine.Memory.Store.{
  AllMapped, AllMapped-put64, Mapped_of_all, put64, store64-put64, SameOutside-put64, load64-put64,
}
use os.Machine.Memory.Words.{load64}
use os.Apps.Shell.Loop.{Layout, loop-Listed}

module _ (f : ℕ) (argv argsep : Ptr) (set : List ℕ) (lo hi cap : ℕ)
    (layout : Layout f argv argsep set lo hi cap) where
  open layout use {not_null, inner, sep_text, array_text, array_sep, small, above}

  no_word :
      (k : ℕ) (cmd unset : Ptr) (m : Memory) (p : Ptr)
      → 0 < k
      → strtok_r f cmd argsep unset m ≡ ok (null, p) m
      → (strtok_r f cmd argsep unset >>= λ first. args_loop f argv argsep k first.0 first.1 0) m
        ≡ ok 0 m
  unfolding args_loop
  no_word zero cmd unset m p pos e = absurd (omega arith)
  no_word (suc k) cmd unset m p pos e = ground (arith, e)

  first_word :
      (k : ℕ) (m : Memory) (cmd unset : Ptr) (bs tok rest : List ℕ)
      → Cut m cmd bs tok rest (strtok_r f cmd argsep unset m)
      → CString m argsep set
      → AllMapped m argv (8 * cap)
      → lo ≤ cmd
      → cmd + length bs ≤ hi
      → length (tok ∷ words set rest) < cap
      → length bs < f
      → length (tok ∷ words set rest) < k
      → (m' : Memory) × ((strtok_r f cmd argsep unset >>= λ first.
              args_loop f argv argsep k first.0 first.1 0)
            m
          ≡ ok (length (tok ∷ words set rest)) m')
        × Strings lo hi m' argv (tok ∷ words set rest)
        × AllMapped m' argv (8 * cap)
        × SameOutsideBoth cmd (length bs) argv (8 * cap) m m'
  first_word k m cmd unset bs tok rest c sep array from inside few fuel fk =
      let outside : (a : Ptr) → (a < cmd) ⊎ (cmd + length bs ≤ a) → c.mem a ≡ m a = c.same in
      let found =
        loop-Listed f argv argsep set lo hi cap layout k c.mem c.t c.p 0 tok rest
          (record {
            token = c.token;
            remains = c.remains;
            sep = CString-frame argsep set (λ a l u. outside a (omega arith)) sep;
            array = λ a l u. let (b, h) = array a l u in (b, outside a (omega arith) ∙ h);
            from = omega (arith, c.starts);
            ends = c.ends;
            inside = omega (arith, c.inside);
            room = omega arith;
            fuel = omega (arith, c.shrinks);
          })
          (omega arith) in
      (
        found.mem,
        ground (arith, c.returns, found.returns),
        (let z : argv + 8 * 0 ≡ argv = omega arith in rw z at (found.strings)),
        found.array,
        λ a o o'.
            found.same a (omega (arith, c.starts, c.ends, c.inside)) (omega arith) ∙ outside a o,
      )

  -- The words before the NULL is stored.
  listed :
      (k : ℕ) (m : Memory) (cmd unset : Ptr) (bs : List ℕ)
      → CString m cmd bs
      → CString m argsep set
      → AllMapped m argv (8 * cap)
      → lo ≤ cmd
      → cmd + length bs ≤ hi
      → length (words set bs) < cap
      → length bs < f
      → length (words set bs) < k
      → (m' : Memory) × ((strtok_r f cmd argsep unset >>= λ first.
              args_loop f argv argsep k first.0 first.1 0)
            m
          ≡ ok (length (words set bs)) m')
        × Strings lo hi m' argv (words set bs)
        × AllMapped m' argv (8 * cap)
        × SameOutsideBoth cmd (length bs) argv (8 * cap) m m'
  unfolding args_loop
  listed k m cmd unset bs text sep array from inside few fuel fk =
      elim (Option-cases (next_token set bs)) [
        | inl e ↦
            let done =
              strtok_r-none f m cmd argsep unset bs set not_null fuel inner (rw at_cmd text) sep
                e in
            rw (words-none set bs e)
              (m, no_word k cmd unset m _ (omega arith) done, tt, array, λ a o o'. refl)
        | inr ((tok, rest), e) ↦
            let e' : words set bs ≡ tok ∷ words set rest = words-some set bs tok rest e in
            let cut =
              strtok_r-some f m cmd argsep unset bs set not_null fuel inner (rw at_cmd text) sep
                e in
            rw e' (
              first_word k m cmd unset bs tok rest (rw at_cmd at cut) sep array from inside
                (rw e' at few) fuel (rw e' at fk))
      ]
    where
      at_cmd : (if cmd == null then unset else cmd) ≡ cmd
      at_cmd = ground arith

  -- What a split leaves: the words with NULL behind them in `argv`, which is still mapped.
  pub record SplitUp (m : Memory) (cmd n : ℕ) (ws : List (List ℕ)) (r : Run Memory ℕ) : Type 0 where
    pub mem : Memory
    pub returns : r ≡ ok (length ws) mem
    pub strings : Strings lo hi mem argv ws
    pub end : load64 (argv + 8 * length ws) mem ≡ ok null mem
    pub array : AllMapped mem argv (8 * cap)
    pub same : SameOutsideBoth cmd n argv (8 * cap) m mem

  pub split_command-SplitUp :
      (k : ℕ) (m : Memory) (cmd unset : Ptr) (bs : List ℕ)
      → CString m cmd bs
      → CString m argsep set
      → AllMapped m argv (8 * cap)
      → lo ≤ cmd
      → cmd + length bs ≤ hi
      → length bs < cap
      → length bs < f
      → length bs < k
      → SplitUp m cmd (length bs) (words set bs) (split_command f k argv argsep unset cmd m)
  unfolding split_command
  split_command-SplitUp k m cmd unset bs text sep array from inside few fuel fk =
      let (m1, run, strings, array1, same) =
        listed k m cmd unset bs text sep array from inside (omega (arith, length-words set bs)) fuel
          (omega (arith, length-words set bs)) in
      let n : ℕ = length (words set bs) in
      let few : length (words set bs) < cap = omega (arith, length-words set bs) in
      let slot : Ptr = argv + 8 * n in
      let elsewhere : SameOutside slot 8 m1 (put64 m1 slot 0) = SameOutside-put64 m1 slot 0 in
      record {
        mem = put64 m1 slot 0;
        returns = ground (
          arith,
          run,
          store64-put64 m1 slot 0
              (Mapped_of_all m1 slot 8 (λ a l u. array1 a (omega arith) (omega arith))),
        );
        strings =
            Strings-frame lo hi m1 (put64 m1 slot 0) argv (words set bs)
              (λ a l u. elsewhere a (omega arith)) (λ a l u. elsewhere a (omega arith)) strings;
        end = load64-put64 m1 slot 0 (omega arith);
        array = AllMapped-put64 m1 slot 0 argv (8 * cap) array1;
        same = λ a o o'. elsewhere a (omega arith) ∙ same a o o';
      }

  -- For a command in a buffer apart from `argv` and the delimiters, with more fuel and more entries
  -- of `argv` than it has bytes, `split_command` returns the number of its words; `argv` then has
  -- pointers to them in order, each a string in the buffer, and NULL behind them, and only the
  -- command and `argv` have changed.
  pub split_command_lem :
      (k : ℕ) (m : Memory) (cmd unset : Ptr) (bs : List ℕ)
      → CString m cmd bs
      → CString m argsep set
      → AllMapped m argv (8 * cap)
      → lo ≤ cmd
      → cmd + length bs ≤ hi
      → length bs < cap
      → length bs < f
      → length bs < k
      → (m' : Memory) × (split_command f k argv argsep unset cmd m ≡ ok (length (words set bs)) m')
        × Strings lo hi m' argv (words set bs)
        × (load64 (argv + 8 * length (words set bs)) m' ≡ ok null m')
        × SameOutsideBoth cmd (length bs) argv (8 * cap) m m'
  split_command_lem k m cmd unset bs text sep array from inside few fuel fk =
      let s = split_command-SplitUp k m cmd unset bs text sep array from inside few fuel fk in
      (s.mem, s.returns, s.strings, s.end, s.same)
