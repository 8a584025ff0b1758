-- ===== src/Kernel/Cpio.antt =====
-- kernel/ksys.c: the archive of programs, a cpio file of the old binary format, and `find_exe`.
pub mod Archive
pub mod Find
use os.Prelude.{ℕ, zero, suc, ◌+◌, ◌-◌, ◌*◌, ◌^◌, ltb, if◌then◌else◌}
use os.Prelude.Int.{is_zero}
use os.Machine.{out_of_fuel, pure, ◌>>=◌}
use os.Machine.Memory.{Ptr, null, Prog}
use os.Machine.Memory.Words.{load16}
use os.LibC.Scan.{strcmp}
use os.Kernel.Align.{align}
use os.Kernel.Init.{Globals}

-- `struct cpio_old_hdr`: thirteen 16-bit fields, and where those that are read stand.
abbrev pub cpio_old_hdr_size : ℕ
cpio_old_hdr_size = 26

abbrev pub c_namesize : Ptr → Ptr
c_namesize ch = ch + 20

abbrev pub c_filesize : (i : ℕ) → Ptr → Ptr
c_filesize i ch = ch + (22 + 2 * i)

unfoldable pub cpio_name : Ptr → Ptr
cpio_name ch = ch + cpio_old_hdr_size

unfoldable pub cpio_content : Ptr → Prog Ptr
unfolding cpio_name
cpio_content ch = do namesize ← load16 (c_namesize ch); pure (cpio_name ch + align namesize 1)

-- The shifted field and the disjunction are of type `int`; the result is widened with its sign.
abbrev pub widen_int : ℕ → ℕ
widen_int w = if ltb w (2 ^ 31) then w else w + (2 ^ 64 - 2 ^ 32)

-- The two halves have no bit in common, so `|` is their sum.
unfoldable pub cpio_filesize : Ptr → Prog ℕ
cpio_filesize ch = do
  hi ← load16 (c_filesize 0 ch)
  lo ← load16 (c_filesize 1 ch)
  pure (widen_int (hi * 2 ^ 16 + lo))

unfoldable pub cpio_next : Ptr → Prog Ptr
unfolding cpio_content cpio_filesize
cpio_next ch = do
  content ← cpio_content ch
  filesize ← cpio_filesize ch
  pure (content + align filesize 1)

-- `trailer` is the address of the literal "TRAILER!!!". The fuel counts the headers, and `f` the
-- characters that a comparison reads.
find_loop : (trailer name : Ptr) (f : ℕ) → ℕ → (cph : Ptr) → Prog Ptr
unfolding cpio_name cpio_next
find_loop trailer name f zero cph = λ _. out_of_fuel
find_loop trailer name f (suc k) cph = do
  end ← strcmp f (cpio_name cph) trailer
  if is_zero end then pure null else do
    d ← strcmp f (cpio_name cph) name
    if is_zero d then pure cph else do next ← cpio_next cph; find_loop trailer name f k next

-- NULL is returned where the archive has no such entry.
unfoldable pub find_exe : (trailer : Ptr) (f k : ℕ) → Globals → (name : Ptr) → Prog Ptr
unfolding find_loop
find_exe trailer f k g name = find_loop trailer name f k g.rootfs_cpio
