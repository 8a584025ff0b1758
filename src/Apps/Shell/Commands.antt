-- ===== src/Apps/Shell/Commands.antt =====
-- What the shell's loop over the commands of a line is to do: run the words of each of them.
pub mod Steps
use os.Prelude.{
  ℕ, zero, suc, ◌+◌, ◌*◌, ◌≤◌, ◌<◌, ◌≡◌, ◌⊎◌, inl, inr, List, [], ◌∷◌, length, map, arith, ◌∙◌,
  refl, Option-cases, ap, some, none,
}
use os.Prelude.Int.{ℤ}
use os.Apps.Shell.{Os, Frame, split_command, commands_loop}
use os.Apps.Shell.Loop.{Layout}
use os.Apps.Shell.Split.{SplitUp, split_command-SplitUp}
use os.Apps.Shell.Words.{words, words-none, words-some}
use os.LibC.Token.{strtok_r}
use os.LibC.Token.Next.{Cut, strtok_r-none, strtok_r-some}
use os.LibC.Token.Words.{next_token}
use os.Machine.{Run, ok}
use os.Machine.Memory.{Ptr, null, Memory}
use os.Machine.Memory.Region.{CString, CString-frame}
use os.Machine.Memory.Store.{AllMapped}
use os.Machine.Memory.Strings.{Strings}
use os.Machine.Memory.Words.{load64}

-- The commands up to the first one with no word.
abbrev pub until_blank : List (List (List ℕ)) → List (List (List ℕ))
until_blank [] = []
until_blank ([] ∷ cs) = []
until_blank ((w ∷ ws) ∷ cs) = (w ∷ ws) ∷ until_blank cs

-- The words of the commands that a line runs.
unfoldable pub commands : (comset argset : List ℕ) → (line : List ℕ) → List (List (List ℕ))
commands comset argset line = until_blank (map (words argset) (words comset line))

module _ (os : Os) (frame : Frame) (comset argset : List ℕ) (lo hi cap : ℕ) where
  open frame use {argv, comsep, argsep, unset}

  -- Only the buffer and `argv` have changed.
  abbrev pub OnlyBuffers : Memory → Memory → Type 0
  OnlyBuffers m m' =
      (a : Ptr) → (a < lo) ⊎ (hi < a) → (a < argv) ⊎ (argv + 8 * cap ≤ a) → m' a ≡ m a

  -- The pointers of `argv` lead to the words, and NULL stands behind them.
  abbrev pub Arguments : Memory → List (List ℕ) → Type 0
  Arguments m ws = Strings lo hi m argv ws × (load64 (argv + 8 * length ws) m ≡ ok null m)

  -- From one memory to another the commands are run in order, by `os_run` with their words in
  -- `argv`; besides, only the buffer and `argv` change.
  pub data Executed : Memory → List (List (List ℕ)) → Memory → Type 0 where
    all_run : {m m' : Memory} → OnlyBuffers m m' → Executed m [] m'
    run_one :
        {m m1 m2 m' : Memory} {r : ℤ} {ws : List (List ℕ)} {cs : List (List (List ℕ))}
        → OnlyBuffers m m1
        → Arguments m1 ws
        → os.os_run argv null m1 ≡ ok r m2
        → Executed m2 cs m'
        → Executed m (ws ∷ cs) m'

  pub Executed-after :
      {m m1 m' : Memory} (cs : List (List (List ℕ)))
      → OnlyBuffers m m1
      → Executed m1 cs m'
      → Executed m cs m'
  Executed-after cs same (all_run o) = all_run (λ a x y. o a x y ∙ same a x y)
  Executed-after cs same (run_one o args e x) = run_one (λ a x y. o a x y ∙ same a x y) args e x

  -- What the shell keeps in memory is as it was.
  pub record Keeps (m m' : Memory) : Type 0 where
    pub text : (a : Ptr) → lo ≤ a → a ≤ hi → m' a ≡ m a
    pub entries : (a : Ptr) → argv ≤ a → a < argv + 8 * cap → m' a ≡ m a
    pub com_sep : (a : Ptr) → comsep ≤ a → a ≤ comsep + length comset → m' a ≡ m a
    pub arg_sep : (a : Ptr) → argsep ≤ a → a ≤ argsep + length argset → m' a ≡ m a

  -- `os_run` of words in `argv` returns, and leaves the memory of the shell alone.
  abbrev pub RunsApart : Type 0
  RunsApart =
      (m : Memory) (ws : List (List ℕ))
      → Arguments m ws
      → (r : ℤ) × (m' : Memory) × (os.os_run argv null m ≡ ok r m') × Keeps m m'

  -- The delimiters of commands, apart from the rest; and the fuel, for as many bytes as a line has.
  pub record Places (f k : ℕ) : Type 0 where
    pub words_at : Layout f argv argsep argset lo hi cap
    pub not_null : 0 < comsep
    pub inner : length comset < f
    pub com_text : (comsep + length comset < lo) ⊎ (hi < comsep)
    pub com_array : (argv + 8 * cap ≤ comsep) ⊎ (comsep + length comset < argv)
    pub short_f : hi < lo + f
    pub short_k : hi < lo + k
    pub short_cap : hi < lo + cap

  -- The command `tok` at `t` has been cut off, and `rest` is left at `p`.
  pub record Ready (m : Memory) (t p : ℕ) (tok rest : List ℕ) : Type 0 where
    pub token : CString m t tok
    pub remains : CString m p rest
    pub arg_sep : CString m argsep argset
    pub com_sep : CString m comsep comset
    pub array : AllMapped m argv (8 * cap)
    pub from : lo ≤ t
    pub ends : t + length tok ≤ p
    pub inside : p + length rest ≤ hi
