-- ===== src/Apps/Shell/Commands/Steps.antt =====
-- The loop over the commands of a line, one command at a time.
use os.Prelude.{
  ℕ, zero, suc, ◌+◌, ◌*◌, ◌≤◌, ◌<◌, ◌≡◌, ◌⊎◌, inl, inr, List, [], ◌∷◌, length, map, arith, ◌∙◌,
  refl, Option-cases, ap, some, none,
}
use os.Prelude.Int.{ℤ}
use os.Apps.Shell.{Os, Frame, split_command, commands_loop}
use os.Apps.Shell.Split.{SplitUp, split_command-SplitUp}
use os.Apps.Shell.Words.{words, words-none, words-some}
use os.LibC.Token.{strtok_r}
use os.LibC.Token.Next.{Cut, strtok_r-none, strtok_r-some}
use os.LibC.Token.Words.{next_token}
use os.Machine.{ok}
use os.Machine.Memory.{Ptr, null, Memory}
use os.Machine.Memory.Region.{CString, CString-frame}
use os.Machine.Memory.Store.{AllMapped}
use os.Apps.Shell.Commands.{
  until_blank, all_run, run_one, Executed-after, OnlyBuffers, Executed, Keeps, Places, Ready,
  RunsApart,
}

zero_or_more : (n : ℕ) → (n ≡ 0) ⊎ (0 < n)
zero_or_more zero = inl refl
zero_or_more (suc n) = inr (omega arith)

nil_of_length : {A : Type 0} (xs : List A) → length xs ≡ 0 → xs ≡ []
nil_of_length [] e = refl
nil_of_length (x ∷ xs) e = absurd (omega arith)

module _ (os : Os) (frame : Frame) (comset argset : List ℕ) (lo hi cap : ℕ) where
  open frame use {argv, comsep, argsep, unset}

  module _ (f k : ℕ) (places : Places os frame comset argset lo hi cap f k)
      (apart : RunsApart os frame comset argset lo hi cap) where
    open places use {words_at, not_null, inner, com_text, com_array, short_f, short_k, short_cap}
    open words_at use {sep_text, array_text, array_sep, above}

    unfoldable pub Done : (n : ℕ) (m : Memory) (t p : Ptr) (cs : List (List (List ℕ))) → Type 0
    Done n m t p cs =
        (m' : Memory) × (commands_loop os frame f k n t p m ≡ ok tt m')
        × Executed os frame comset argset lo hi cap m cs m'

    module _ (m : Memory) (t p : ℕ) (tok rest : List ℕ)
        (ready : Ready os frame comset argset lo hi cap m t p tok rest) where
      open ready use {token, remains, arg_sep, com_sep, array, from, ends, inside}

      split :
          SplitUp f argv argsep argset lo hi cap words_at m t
            (length tok)
            (words argset tok)
            (split_command f k argv argsep unset t m)
      split =
          split_command-SplitUp f argv argsep argset lo hi cap words_at k m t unset tok token
            arg_sep array from (omega arith) (omega arith) (omega arith) (omega arith)

      split-OnlyBuffers : OnlyBuffers os frame comset argset lo hi cap m split.mem
      split-OnlyBuffers a x y = split.same a (omega arith) y

      -- A command with no word ends the line.
      blank : (n : ℕ) → words argset tok ≡ [] → Done (suc n) m t p []
      unfolding Done commands_loop
      blank n e =
          let none_found : length (words argset tok) ≡ 0 = rw e refl in
          (
            split.mem,
            ground (arith, split.returns, none_found, from, above),
            all_run split-OnlyBuffers,
          )

      -- After the command has run, in `m2`.
      module _ (r : ℤ) (m2 : Memory) (ran : os.os_run argv null split.mem ≡ ok r m2)
          (keeps : Keeps os frame comset argset lo hi cap split.mem m2) where
        arg2 : CString m2 argsep argset
        arg2 =
            CString-frame argsep argset
              (λ a l u. keeps.arg_sep a l u ∙ split.same a (omega arith) (omega arith)) arg_sep

        com2 : CString m2 comsep comset
        com2 =
            CString-frame comsep comset
              (λ a l u. keeps.com_sep a l u ∙ split.same a (omega arith) (omega arith)) com_sep

        remains2 : CString m2 p rest
        remains2 =
            CString-frame p rest
              (λ a l u.
                keeps.text a (omega arith) (omega arith) ∙ split.same a (omega arith) (omega arith))
              remains

        array2 : AllMapped m2 argv (8 * cap)
        array2 a l u = let (b, h) = split.array a l u in (b, keeps.entries a l u ∙ h)

        last :
            (n : ℕ)
            → 0 < length (words argset tok)
            → next_token comset rest ≡ none
            → Done (suc (suc n)) m t p (words argset tok ∷ [])
        unfolding Done commands_loop
        last n some_word e =
            let done =
              strtok_r-none f m2 null comsep p rest comset not_null (omega arith) inner remains2
                com2 e in
            (
              m2,
              ground (arith, split.returns, some_word, from, above, ran, done),
              run_one split-OnlyBuffers (split.strings, split.end) ran (all_run (λ a x y. refl)),
            )

        module _ (tok2 rest2 : List ℕ) (e : next_token comset rest ≡ some (tok2, rest2)) where
          cut : Cut m2 p rest tok2 rest2 (strtok_r f null comsep p m2)
          cut =
              strtok_r-some f m2 null comsep p rest comset not_null (omega arith) inner remains2
                com2 e

          kept : (a : Ptr) → (a < p) ⊎ (p + length rest ≤ a) → cut.mem a ≡ m2 a
          kept a o = cut.same a o

          ready2 : Ready os frame comset argset lo hi cap cut.mem cut.t cut.p tok2 rest2
          ready2 = record {
            token = cut.token;
            remains = cut.remains;
            arg_sep = CString-frame argsep argset (λ a l u. kept a (omega arith)) arg2;
            com_sep = CString-frame comsep comset (λ a l u. kept a (omega arith)) com2;
            array = λ a l u. let (b, h) = array2 a l u in (b, kept a (omega arith) ∙ h);
            from = omega (arith, cut.starts);
            ends = cut.ends;
            inside = omega (arith, cut.inside);
          }

          more :
              (n : ℕ) (cs : List (List (List ℕ)))
              → 0 < length (words argset tok)
              → Done n cut.mem cut.t cut.p cs
              → Done (suc n) m t p (words argset tok ∷ cs)
          unfolding Done commands_loop
          more n cs some_word (m', run, executed) = (
            m',
            ground (arith, split.returns, some_word, from, above, ran, cut.returns, run),
            run_one split-OnlyBuffers (split.strings, split.end) ran
                (Executed-after os frame comset argset lo hi cap cs (λ a x y. kept a (omega arith))
                  executed),
          )

    until_blank-cons :
        (ws : List (List ℕ)) (cs : List (List (List ℕ)))
        → 0 < length ws
        → until_blank (ws ∷ cs) ≡ ws ∷ until_blank cs
    until_blank-cons [] cs h = elim h [ ]
    until_blank-cons (w ∷ ws) cs h = refl

    Loops : ℕ → Type 0
    Loops n =
        (m : Memory) (t p : ℕ) (tok rest : List ℕ)
        → Ready os frame comset argset lo hi cap m t p tok rest
        → length (words comset rest) + 1 < n
        → Done n m t p (until_blank (map (words argset) (tok ∷ words comset rest)))

    -- A command with a word is run, and the loop goes on with the rest of the line.
    worded :
        (n : ℕ) (m : Memory) (t p : ℕ) (tok rest : List ℕ)
        → Ready os frame comset argset lo hi cap m t p tok rest
        → length (words comset rest) + 1 < suc (suc n)
        → 0 < length (words argset tok)
        → Loops (suc n)
        → Done
            (suc (suc n))
            m
            t
            p
            (words argset tok ∷ until_blank (map (words argset) (words comset rest)))
    unfolding Loops
    worded n m t p tok rest ready fuel some_word loops =
        let one = split m t p tok rest ready in
        let (r, m2, ran, keeps) = apart one.mem (words argset tok) (one.strings, one.end) in
        elim (Option-cases (next_token comset rest)) [
          | inl e ↦
              rw (words-none comset rest e) (last m t p tok rest ready r m2 ran keeps n some_word e)
          | inr ((tok2, rest2), e) ↦
              let c = cut m t p tok rest ready r m2 ran keeps tok2 rest2 e in
              let e' = words-some comset rest tok2 rest2 e in
              rw e' (
                more m t p tok rest ready r m2 ran keeps tok2 rest2 e (suc n) _ some_word (
                  loops c.mem c.t c.p tok2 rest2
                    (ready2 m t p tok rest ready r m2 ran keeps tok2 rest2 e)
                    (omega (arith, ap length e'))))
        ]

    pub commands_loop-Done :
        (n : ℕ) (m : Memory) (t p : ℕ) (tok rest : List ℕ)
        → Ready os frame comset argset lo hi cap m t p tok rest
        → length (words comset rest) + 1 < n
        → Done n m t p (until_blank (map (words argset) (tok ∷ words comset rest)))
    unfolding Loops
    commands_loop-Done zero m t p tok rest ready fuel = absurd (omega arith)
    commands_loop-Done (suc zero) m t p tok rest ready fuel = absurd (omega arith)
    commands_loop-Done (suc (suc n)) m t p tok rest ready fuel =
        elim (zero_or_more (length (words argset tok))) [
          | inl none_found ↦
              let nil = nil_of_length (words argset tok) none_found in
              rw nil (blank m t p tok rest ready (suc n) nil)
          | inr some_word ↦
              rw (until_blank-cons (words argset tok) _ some_word)
                (worded n m t p tok rest ready fuel some_word (commands_loop-Done (suc n)))
        ]
