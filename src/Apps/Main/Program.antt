-- ===== src/Apps/Main/Program.antt =====
-- echo as a program: `_main` of libc/_main.c, the kernel's `sys_getargv` and `main` of apps/echo.c.
use os.Prelude.{ℕ, ◌+◌, ◌-◌, ◌*◌, ◌≤◌, ◌<◌, ◌≡◌, ◌⊎◌, List, ◌∷◌, length, arith, ◌∙◌}
use os.Prelude.Int.{ℤ, pos}
use os.Apps.Main.{libc_main, echo_main}
use os.Apps.Main.Echo
use os.Apps.Main.Echo.{format_text, echoed, AreShort, WritesApart, Written, echo_main-Written}
use os.Kernel.Args.{sys_getargv}
use os.Kernel.Args.Copies
use os.Kernel.Args.Copies.{sys_getargv_lem}
use os.Machine.{ok}
use os.Machine.Memory.{Ptr, Memory, Prog}
use os.Machine.Memory.Region.{CString, CString-frame}
use os.Machine.Memory.Store.{AllMapped}

-- The local arrays `args` at `buf` and `argv` of `_main`, the array of `rprintf` at `msg` and the
-- format, with the fuel for strings: apart from each other and from the argument vector of the
-- process.
pub record Places (chars f k msg format buf argv args count lo hi : ℕ) : Type 0 where
  pub copies : Copies.Layout chars buf (buf + 128) argv 16 args count lo hi
  pub writes : Echo.Layout f k msg format argv 16 buf (buf + 128)
  pub format_buf : (buf + 128 ≤ format) ⊎ (format + 4 < buf)
  pub format_argv : (argv + 8 * 16 ≤ format) ⊎ (format + 4 < argv)

module _ (os_write : (fd : ℤ) (buf : Ptr) (len : ℕ) → Prog ℤ)
    (chars f k n msg format buf argv args count lo hi : ℕ)
    (places : Places chars f k msg format buf argv args count lo hi)
    (apart : WritesApart os_write f k msg format argv 16 buf (buf + 128)) where
  open places use {copies, writes, format_buf, format_argv}

  -- `_main` of echo, with the arguments of its process.
  abbrev pub echo_program : (os_exit : (exitcode : ℤ) → Prog (Unit {0})) → Prog (Unit {0})
  echo_program os_exit =
      libc_main (λ b bsz a asz. sys_getargv chars n args b bsz a asz) os_exit
        (echo_main os_write f k msg format) buf argv

  libc_main-exits :
      (os_exit : (exitcode : ℤ) → Prog (Unit {0})) (argc : ℕ) (m m1 m' : Memory)
      → sys_getargv chars n args buf (pos 128) argv (pos 16) m ≡ ok (pos argc) m1
      → echo_main os_write f k msg format (pos argc) argv m1 ≡ ok (pos 0) m'
      → echo_program os_exit m ≡ os_exit (pos 0) m'
  unfolding libc_main
  libc_main-exits os_exit argc m m1 m' got ran = ground (arith, got, ran)

  -- echo that is started with the arguments `w` and `ws`, which fit the zeroed buffer of `_main`,
  -- with `ws` each shorter than 126 bytes, more fuel than arguments, and where `os_write` returns
  -- and leaves its memory alone, comes to exit with code 0: by then it has written `ws` in order,
  -- each with a space behind it, and the last with a newline. Before it writes, only the two arrays
  -- of `_main` have changed.
  pub echo_program-Written :
      (os_exit : (exitcode : ℤ) → Prog (Unit {0})) (m : Memory) (w : List ℕ) (ws : List (List ℕ))
      → Copies.Ready chars buf (buf + 128) argv 16 args count lo hi copies m 0 args buf (w ∷ ws)
      → length (w ∷ ws) < n
      → CString m format format_text
      → AllMapped m msg 128
      → AreShort ws
      → (m1 : Memory) × (m' : Memory) × (echo_program os_exit m ≡ os_exit (pos 0) m')
        × Written os_write f k msg format argv 16 buf (buf + 128) m1 (echoed ws) m'
        × ((a : Ptr) → (a < buf) ⊎ (buf + 128 ≤ a) → (a < argv) ⊎ (argv + 8 * 16 ≤ a) → m1 a ≡ m a)
  echo_program-Written os_exit m w ws ready fuel text array short =
      let room : buf + 128 - buf ≡ 128 = omega arith in
      let suc_length : length (w ∷ ws) ≡ 1 + length ws = omega arith in
      let (m1, got, strings, last, same) =
        sys_getargv_lem chars buf (buf + 128) argv 16 args count lo hi copies n m (w ∷ ws) ready
          fuel in
      let (m', ran, written) =
        echo_main-Written os_write f k msg format argv 16 buf (buf + 128) writes apart ws m1
          (record {
            strings = strings.1;
            format_at =
                CString-frame format format_text
                  (λ a l u. same a (omega (arith, format_buf)) (omega (arith, format_argv))) text;
            array = λ a l u.
                let (b, h) = array a l u in
                (b, same a (omega (arith, writes.text)) (omega (arith, writes.entries)) ∙ h);
            few = omega (arith, ready.room);
            are_short = short;
          }) in
      (
        m1,
        m',
        libc_main-exits os_exit (length (w ∷ ws)) m m1 m' (rw room at got) (rw suc_length ran),
        written,
        same,
      )
