-- ===== src/Apps/Sigtest.antt =====
-- apps/sigtest.c, which writes to NULL and expects that its handler is run. Nothing in the kernel
-- calls that.
use os.Prelude.{ℕ, [], ◌∷◌, if◌then◌else◌}
use os.Prelude.Int.{ℤ, pos, ltb_ℤ, ◌+ℤ◌}
use os.Kernel.Process.{int_word}
use os.LibC.Format.{int, rprintf}
use os.Machine.{pure, ◌>>◌}
use os.Machine.Memory.{Ptr, Prog, null}
use os.Machine.Memory.Words.{store32}

abbrev badaddr : Ptr
badaddr = null

-- What the program calls, the fuel of `vsnprintf`, and the local array of `rprintf`.
module _ (os_write : (fd : ℤ) (buf : Ptr) (len : ℕ) → Prog ℤ) (f k : ℕ) (msg : Ptr) where
  unfoldable dosig : Prog (Unit {0})
  dosig = store32 badaddr (int_word (pos 1))

  -- `hndnest` is passed in and returned; `format` is "signal nest %d\n".
  unfoldable hnd :
      (os_exit : (exitcode : ℤ) → Prog (Unit {0})) (format : Ptr) (sig hndnest : ℤ) → Prog ℤ
  unfolding dosig ◌+ℤ◌ rprintf
  hnd os_exit format sig hndnest = do
    rprintf os_write f k msg format (int (hndnest +ℤ pos 1) ∷ [])
    if ltb_ℤ (pos 1) (hndnest +ℤ pos 1) then os_exit (pos 0) else pure tt
    dosig
    os_exit (pos 1)
    pure (hndnest +ℤ pos 1)

  -- `main` of sigtest; `missed` is its text.
  unfoldable sigtest_main : (missed : Ptr) (argc : ℤ) (argv : Ptr) → Prog ℤ
  unfolding dosig rprintf
  sigtest_main missed argc argv = do dosig; rprintf os_write f k msg missed []; pure (pos 1)
