-- ===== src/Kernel/Args.antt =====
-- kernel/ksys.c: `sys_getargv`, which copies the arguments of the current process to the buffers
-- that it passes.
pub mod Copies
pub mod Refuses
use os.Prelude.{ℕ, zero, suc, ◌+◌, ◌*◌, ◌==◌, if◌then◌else◌, not, Bool}
use os.Prelude.Int.{ℤ, pos, negsuc, ◌+ℤ◌, ◌-ℤ◌, ltb_ℤ, pos_part, to_int}
use os.Machine.{out_of_fuel, pure, ◌>>=◌, ◌>>◌}
use os.Machine.Memory.{Ptr, null, Prog}
use os.Machine.Memory.Words.{load64, store64}
use os.LibC.Scan.{strlen}
use os.LibC.Copy.{strcpy}

-- The end of the buffer, less where the next argument goes, is less than its length.
abbrev pub too_long : (buf : Ptr) (bufsz : ℤ) (bufp : Ptr) (len : ℤ) → Bool
too_long buf bufsz bufp len = ltb_ℤ (pos buf +ℤ bufsz -ℤ pos bufp) len

-- `bufp + (len + 1)`
abbrev pub behind_string : (bufp : Ptr) (len : ℤ) → Ptr
behind_string bufp len = pos_part (pos bufp +ℤ (len +ℤ pos 1))

module _ (chars : ℕ) (buf : Ptr) (bufsz : ℤ) (argv : Ptr) (argvsz : ℤ) where
  -- `argv[argc] = NULL; return argc;`
  unfoldable pub end_args : (argc : ℕ) → Prog ℤ
  end_args argc =
      if not (ltb_ℤ (pos argc) argvsz)
      then pure (negsuc 0)
      else do store64 (argv + 8 * argc) null; pure (pos argc)

  -- The fuel counts the arguments; `chars` is that of the string functions. A length is kept in an
  -- `int`.
  unfoldable pub copy_args : ℕ → (arg : Ptr) (argc : ℕ) (bufp : Ptr) → Prog ℤ
  unfolding end_args
  copy_args zero arg argc bufp = λ _. out_of_fuel
  copy_args (suc k) arg argc bufp = do
    p ← load64 arg
    if p == null then end_args argc else if ltb_ℤ argvsz (pos argc) then pure (negsuc 0) else do
      len ← strlen chars p
      if too_long buf bufsz bufp (to_int len) then pure (negsuc 0) else do
        strcpy chars bufp p
        store64 (argv + 8 * argc) bufp
        copy_args k (arg + 8) (argc + 1) (behind_string bufp (to_int len))

-- `proc_argv` is `curp->argv`.
unfoldable pub sys_getargv :
    (chars args : ℕ) → (proc_argv buf : Ptr) (bufsz : ℤ) (argv : Ptr) (argvsz : ℤ) → Prog ℤ
unfolding copy_args
sys_getargv chars args proc_argv buf bufsz argv argvsz =
    copy_args chars buf bufsz argv argvsz args proc_argv 0 buf
