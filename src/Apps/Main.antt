-- ===== src/Apps/Main.antt =====
-- libc/_main.c, the start of every program, and the mains of apps/echo.c and apps/echocode.c.
pub mod Echo
pub mod Program
use os.Prelude.{ℕ, zero, suc, ◌+◌, ◌-◌, ◌*◌, ◌==◌, if◌then◌else◌, not, [], ◌∷◌}
use os.Prelude.Int.{ℤ, pos, negsuc, is_zero, ltb_ℤ}
use os.Kernel.Elf.{to_int}
use os.Kernel.Process.{int_word}
use os.LibC.Format.{string, int, rprintf}
use os.Machine.{pure, ◌>>=◌, ◌>>◌}
use os.Machine.Memory.{Ptr, Prog}
use os.Machine.Memory.Words.{load32, load64, store32}

-- `args` and `argv` are the local arrays; `main` is the program's.
unfoldable pub libc_main :
    (os_getargv : (buf : Ptr) (bufsz : ℤ) (argv : Ptr) (argvsz : ℤ) → Prog ℤ)
    (os_exit : (exitcode : ℤ) → Prog (Unit {0})) (main : (argc : ℤ) (argv : Ptr) → Prog ℤ)
    (args argv : Ptr)
    → Prog (Unit {0})
libc_main os_getargv os_exit main args argv = do
  argc ← os_getargv args (pos 128) argv (pos 16)
  if ltb_ℤ argc (pos 0) then os_exit (pos 256) else pure tt
  c ← main argc argv
  os_exit c

-- A space, or a newline behind the last argument.
abbrev pub separator : (i argc : ℕ) → ℕ
separator i argc = if suc i == argc then b'\n' else b' '

-- What the programs call, the fuel of `vsnprintf`, and the local array of `rprintf`.
module _ (os_write : (fd : ℤ) (buf : Ptr) (len : ℕ) → Prog ℤ) (f k : ℕ) (msg : Ptr) where
  -- The loop of echo from `i` on, with `n` arguments left; `format` is "%s%c".
  unfoldable pub echo_loop : (format argv : Ptr) (argc : ℕ) → (n i : ℕ) → Prog ℤ
  unfolding rprintf
  echo_loop format argv argc zero i = pure (pos 0)
  echo_loop format argv argc (suc n) i = do
    arg ← load64 (argv + 8 * i)
    rprintf os_write f k msg format (string arg ∷ int (pos (separator i argc)) ∷ [])
    echo_loop format argv argc n (i + 1)

  -- `main` of echo.
  unfoldable pub echo_main : (format : Ptr) (argc : ℤ) (argv : Ptr) → Prog ℤ
  unfolding echo_loop
  echo_main format (pos argc) argv = echo_loop format argv argc (argc - 1) 1
  echo_main format (negsuc n) argv = pure (pos 0)

  -- `main` of echocode, with `code` the address of its local variable; `few`, `failed` and `format`
  -- are its texts.
  unfoldable pub echocode_main :
      (os_run : (argv exitcode : Ptr) → Prog ℤ) (few failed format code : Ptr) (argc : ℤ)
      (argv : Ptr)
      → Prog ℤ
  unfolding rprintf
  echocode_main os_run few failed format code argc argv =
      if ltb_ℤ argc (pos 2) then (rprintf os_write f k msg few [] >> pure (pos 1)) else do
        store32 code (int_word (negsuc 0))
        r ← os_run (argv + 8) code
        if not (is_zero r) then (rprintf os_write f k msg failed [] >> pure (pos 1)) else do
          v ← load32 code
          rprintf os_write f k msg format (int (to_int v) ∷ [])
          pure (pos 0)
