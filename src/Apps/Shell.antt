-- ===== src/Apps/Shell.antt =====
-- apps/shell.c. `main` reads a line, cuts it into commands and each command into words, and runs
-- them.
pub mod Words
pub mod Commands
pub mod Loop
pub mod Round
pub mod Split
use os.Prelude.{ℕ, zero, suc, ◌+◌, ◌*◌, ◌^◌, ◌==◌, ltb, if◌then◌else◌, not, Bool}
use os.Prelude.Int.{ℤ, pos, negsuc, is_zero, pos_part}
use os.Machine.{out_of_fuel, pure, ◌>>=◌, ◌>>◌}
use os.Machine.Memory.{Ptr, null, Prog, store8}
use os.Machine.Memory.Words.{store64}
use os.LibC.Token.{strtok_r}

-- What the program calls: `os_read(0, …)`, `os_run` and `rprintf` of a text that has no conversion.
pub record Os : Type 0 where
  pub os_read : (buffer : Ptr) → (size : ℕ) → Prog ℤ
  pub os_run : (argv exitcode : Ptr) → Prog ℤ
  pub rprintf : (format : Ptr) → Prog (Unit {0})

-- The addresses of the local arrays and of the literals, and the first value of a local pointer.
pub record Frame : Type 0 where
  pub buffer : Ptr
  pub argv : Ptr
  pub comsep : Ptr
  pub argsep : Ptr
  pub prompt : Ptr
  pub newline : Ptr
  pub unset : Ptr

abbrev pub buffer_size : ℕ
buffer_size = 256

-- `while (arg) { … }`: the result is `argc`. The fuel `k` counts the words, `f` is that of
-- `strtok_r`.
unfoldable pub args_loop :
    (f : ℕ) (argv argsep : Ptr) → (k : ℕ) → (arg starg : Ptr) → (argc : ℕ) → Prog ℕ
args_loop f argv argsep zero arg starg argc = λ m. out_of_fuel
args_loop f argv argsep (suc k) arg starg argc = if arg == null then pure argc else do
  store64 (argv + 8 * argc) arg
  next ← strtok_r f null argsep starg
  args_loop f argv argsep k next.0 next.1 (argc + 1)

-- From the first word of a command to `argv[argc] = NULL;`.
unfoldable pub split_command : (f k : ℕ) (argv argsep unset cmd : Ptr) → Prog ℕ
unfolding args_loop
split_command f k argv argsep unset cmd = do
  first ← strtok_r f cmd argsep unset
  argc ← args_loop f argv argsep k first.0 first.1 0
  store64 (argv + 8 * argc) null
  pure argc

module _ (os : Os) (frame : Frame) (f k : ℕ) where
  open frame use {buffer, argv, comsep, argsep, prompt, newline, unset}

  -- `while (cmd) { … }`: a command with no word ends the line. The fuel counts the commands.
  unfoldable pub commands_loop : ℕ → (cmd stcmd : Ptr) → Prog (Unit {0})
  unfolding split_command
  commands_loop zero cmd stcmd = λ m. out_of_fuel
  commands_loop (suc n) cmd stcmd = if cmd == null then pure tt else do
    argc ← split_command f k argv argsep unset cmd
    if argc == 0 then pure tt else do
      os.os_run argv null
      next ← strtok_r f null comsep stcmd
      commands_loop n next.0 next.1

  -- `bytes < sizeof(buffer)` compares unsigned numbers, so that a negative one is not less.
  unfoldable pub end_buffer : (bytes : ℤ) → Prog (Unit {0})
  end_buffer (pos n) = if ltb n buffer_size then store8 (buffer + n) 0 else pure tt
  end_buffer (negsuc n) = pure tt

  -- `main`, for as many lines as the fuel says; the result is its exit code.
  unfoldable pub main_loop : (lines : ℕ) → Prog ℤ
  unfolding commands_loop end_buffer
  main_loop zero = λ m. out_of_fuel
  main_loop (suc n) = do
    os.rprintf prompt
    bytes ← os.os_read buffer buffer_size
    if is_zero bytes then (os.rprintf newline >> pure (pos 0)) else do
      end_buffer bytes
      first ← strtok_r f buffer comsep unset
      commands_loop k first.0 first.1
      main_loop n
