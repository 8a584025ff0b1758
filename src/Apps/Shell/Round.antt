-- ===== src/Apps/Shell/Round.antt =====
-- One line of input through the shell's `main`.
use os.Prelude.{
  if◌then◌else◌, ℕ, zero, suc, ◌+◌, ◌*◌, ◌==◌, ◌≤◌, ◌<◌, ◌≡◌, ◌⊎◌, inl, inr, List, [], ◌∷◌, length,
  arith, ◌∙◌, refl, Option-cases, some, none,
}
use os.Prelude.Int.{pos}
use os.Apps.Shell.{Os, Frame, buffer_size, commands_loop, end_buffer, main_loop}
use os.Apps.Shell.Commands.{
  commands, all_run, Executed-after, OnlyBuffers, Executed, Places, RunsApart,
}
use os.Apps.Shell.Commands.Steps.{Done, commands_loop-Done}
use os.Apps.Shell.Words.{words-none, words-some, length-words}
use os.LibC.Scan.Compare.{IsText}
use os.LibC.Token.{strtok_r}
use os.LibC.Token.Next.{Cut, strtok_r-none, strtok_r-some}
use os.LibC.Token.Words.{next_token}
use os.Machine.{ok, ◌>>=◌}
use os.Machine.Memory.{Ptr, null, Memory, write}
use os.Machine.Memory.Region.{CString, CString-frame, Holds, Holds-frame}
use os.Machine.Memory.Store.{AllMapped}

CString_of_text :
    (m : Memory) (p : Ptr) (bs : List ℕ)
    → Holds m p bs
    → IsText bs
    → m (p + length bs) ≡ some 0
    → CString m p bs
CString_of_text m p [] h t e = let z : p ≡ p + 0 = omega arith in rw z e
CString_of_text m p (b ∷ bs) (h, hs) (l, u, t) e =
    let z : suc p + length bs ≡ p + suc (length bs) = omega arith in
    (h, l, u, CString_of_text m (suc p) bs hs t (rw z e))

module _ (os : Os) (frame : Frame) (comset argset : List ℕ) (hi : ℕ) where
  open frame use {buffer, argv, comsep, argsep, unset, prompt}

  -- `os_read` has put the line at the start of the buffer: bytes that are not NUL, fewer than the
  -- buffer has. The delimiters stand where they belong, and the arrays are mapped.
  pub record Line (m : Memory) (line : List ℕ) : Type 0 where
    pub text : Holds m buffer line
    pub no_nul : IsText line
    pub some_bytes : 0 < length line
    pub few_bytes : length line < buffer_size
    pub mapped : AllMapped m buffer buffer_size
    pub arg_sep : CString m argsep argset
    pub com_sep : CString m comsep comset
    pub array : AllMapped m argv (8 * 256)

  module _ (f k : ℕ) (places : Places os frame comset argset buffer hi 256 f k)
      (apart : RunsApart os frame comset argset buffer hi 256)
      (whole : hi + 1 ≡ buffer + buffer_size) where
    open places use {words_at, not_null, inner, com_text, com_array, short_f, short_k}
    open words_at use {sep_text, array_text, above}

    module _ (m : Memory) (line : List ℕ) (read : Line m line) where
      open read use {text, no_nul, some_bytes, few_bytes, mapped, arg_sep, com_sep, array}

      -- The NUL is stored.
      ended : Memory
      ended = write m (buffer + length line) 0

      end_buffer-ended : end_buffer os frame f k (pos (length line)) m ≡ ok tt ended
      unfolding end_buffer ended
      end_buffer-ended =
          let (b, h) = mapped (buffer + length line) (omega arith) (omega arith) in
          ground (arith, few_bytes, h)

      line_there : CString ended buffer line
      unfolding ended
      line_there =
          CString_of_text ended buffer line (Holds-frame buffer line (λ a l u. ground arith) text)
            no_nul (ground arith)

      arg_there : CString ended argsep argset
      unfolding ended
      arg_there = CString-frame argsep argset (λ a l u. ground arith) arg_sep

      com_there : CString ended comsep comset
      unfolding ended
      com_there = CString-frame comsep comset (λ a l u. ground arith) com_sep

      array_there : AllMapped ended argv (8 * 256)
      unfolding ended
      array_there a l u = let (b, h) = array a l u in (b, ground (arith, h))

      only_buffer : OnlyBuffers os frame comset argset buffer hi 256 m ended
      unfolding ended
      only_buffer a x y = ground arith

      at_buffer : (if buffer == null then unset else buffer) ≡ buffer
      at_buffer = ground arith

      nothing_left :
          (n : ℕ) {p : Ptr}
          → strtok_r f buffer comsep unset ended ≡ ok (null, p) ended
          → 0 < n
          → (strtok_r f buffer comsep unset >>= λ first.
                commands_loop os frame f k n first.0 first.1)
              ended
            ≡ ok tt ended
      unfolding commands_loop
      nothing_left zero e h = elim h [ ]
      nothing_left (suc n) e h = ground (arith, e)

      -- The line is cut and its commands are run.
      RanLine : Type 0
      RanLine =
          (m' : Memory) × ((strtok_r f buffer comsep unset >>= λ first.
          commands_loop os frame f k k first.0 first.1)
              ended
            ≡ ok tt m')
          × Executed os frame comset argset buffer hi 256 ended (commands comset argset line) m'

      no_command : next_token comset line ≡ none → RanLine
      unfolding RanLine commands
      no_command e =
          let done =
            strtok_r-none f ended buffer comsep unset line comset not_null (omega arith) inner
              (rw at_buffer line_there) com_there e in
          rw (words-none comset line e)
            (ended, nothing_left k done (omega arith), all_run (λ a x y. refl))

      first_command : (tok rest : List ℕ) → next_token comset line ≡ some (tok, rest) → RanLine
      unfolding RanLine commands Done
      first_command tok rest e =
          let c : Cut ended buffer line tok rest (strtok_r f buffer comsep unset ended) =
            rw at_buffer at (
              strtok_r-some f ended buffer comsep unset line comset not_null (omega arith) inner
                (rw at_buffer line_there) com_there e) in
          let kept : (a : Ptr) → (a < buffer) ⊎ (buffer + length line ≤ a) → c.mem a ≡ ended a =
            c.same in
          let (m', run, executed) =
            commands_loop-Done os frame comset argset buffer hi 256 f k places apart k c.mem c.t c.p
              tok rest
              (record {
                token = c.token;
                remains = c.remains;
                arg_sep = CString-frame argsep argset (λ a l u. kept a (omega arith)) arg_there;
                com_sep = CString-frame comsep comset (λ a l u. kept a (omega arith)) com_there;
                array = λ a l u. let (b, h) = array_there a l u in (b, kept a (omega arith) ∙ h);
                from = c.starts;
                ends = c.ends;
                inside = omega (arith, c.inside);
              })
              (omega (arith, length-words comset rest, c.shrinks)) in
          rw (words-some comset line tok rest e) (
            m',
            ground (arith, c.returns, run),
            Executed-after os frame comset argset buffer hi 256 _ (λ a x y. kept a (omega arith))
                executed,
          )

      ran_line : RanLine
      ran_line = elim (Option-cases (next_token comset line)) [
        | inl e ↦ no_command e
        | inr ((tok, rest), e) ↦ first_command tok rest e
      ]

    -- Where the prompt is written, `os_read` puts a line into the buffer that is shorter than it,
    -- and `os_run` returns and leaves the shell's memory alone: one round of `main` runs the
    -- commands of the line, up to the first one with no word, in order, each by `os_run` with its
    -- words in `argv` and NULL behind them; between the calls only the buffer and `argv` change,
    -- and `main` goes on with the next round.
    pub main_loop-Executed :
        (n : ℕ) (m0 m1 m2 : Memory) (line : List ℕ)
        → os.rprintf prompt m0 ≡ ok tt m1
        → os.os_read buffer buffer_size m1 ≡ ok (pos (length line)) m2
        → Line m2 line
        → (m' : Memory) × (main_loop os frame f k (suc n) m0 ≡ main_loop os frame f k n m')
          × Executed os frame comset argset buffer hi 256 m2 (commands comset argset line) m'
    unfolding main_loop RanLine
    main_loop-Executed n m0 m1 m2 line prompted read at =
        let (m', run, executed) = ran_line m2 line at in
        (
          m',
          ground (arith, prompted, read, at.some_bytes, end_buffer-ended m2 line at, run),
          Executed-after os frame comset argset buffer hi 256 _ (only_buffer m2 line at) executed,
        )
