-- ===== src/LibC/Token.antt =====
-- libc/string.c: `strtok_r`. The pointer behind `saveptr` is passed in and returned.
pub mod Words
pub mod Next
use os.Prelude.{ℕ, ◌+◌, ◌==◌, if◌then◌else◌}
use os.Machine.{pure, ◌>>=◌, ◌>>◌}
use os.Machine.Memory.{Ptr, null, Prog, load8, store8}
use os.LibC.Scan.{strspn, strcspn}

-- From the first byte of a token on: its end is found and made a NUL.
cut_token : ℕ → (s delim : Ptr) → Prog (Ptr × Ptr)
cut_token k s delim = do
  n ← strcspn k s delim
  c ← load8 (s + n)
  if c == 0 then pure (s, s + n) else do store8 (s + n) 0; pure (s, s + n + 1)

-- The token (NULL if there is none) and the new `*saveptr`.
unfoldable pub strtok_r : ℕ → (str delim saved : Ptr) → Prog (Ptr × Ptr)
unfolding cut_token
strtok_r k str delim saved = do
  let s = if str == null then saved else str
  n ← strspn k s delim
  c ← load8 (s + n)
  if c == 0 then pure (null, s + n) else cut_token k (s + n) delim
