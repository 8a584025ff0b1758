-- ===== src/Kernel/Cpio/Archive.antt =====
-- An archive in memory: its entries one behind the other, each part padded to an even length, and
-- the trailer.
use os.Prelude.{ℕ, ◌+◌, ◌*◌, ◌/◌, ◌^◌, ◌<◌, ◌≡◌, List, arith}
use os.Machine.{ok}
use os.Machine.Memory.{Ptr, Memory}
use os.Machine.Memory.Region.{CString}
use os.Machine.Memory.Words.{load16}
use os.Kernel.Align.Mask.{align_even}
use os.Kernel.Cpio.{cpio_content, cpio_filesize, cpio_next}

pub record Entry : Type 0 where
  pub header : Ptr
  pub name : List ℕ
  pub namesize : ℕ
  -- The halves of the file size.
  pub high : ℕ
  pub low : ℕ

abbrev pub even : ℕ → ℕ
even n = (n + 1) / 2 * 2

abbrev pub content_of : Entry → Ptr
content_of e = e.header + 26 + even e.namesize

abbrev pub filesize_of : Entry → ℕ
filesize_of e = e.high * 2 ^ 16 + e.low

-- The entry stands in memory; its file is smaller than 2 GiB.
pub record IsEntry (m : Memory) (e : Entry) : Type 0 where
  pub name : CString m (e.header + 26) e.name
  pub namesize : load16 (e.header + 20) m ≡ ok e.namesize m
  pub high : load16 (e.header + 22) m ≡ ok e.high m
  pub low : load16 (e.header + 24) m ≡ ok e.low m
  pub namesize_short : e.namesize < 2 ^ 16
  pub high_short : e.high < 2 ^ 15
  pub low_short : e.low < 2 ^ 16

module _ {m : Memory} {e : Entry} (v : IsEntry m e) where
  open v use {namesize, high, low, namesize_short, high_short, low_short}

  pub cpio_content-entry : cpio_content e.header m ≡ ok (content_of e) m
  unfolding cpio_content
  cpio_content-entry = ground (arith, align_even e.namesize)

  pub cpio_filesize-entry : cpio_filesize e.header m ≡ ok (filesize_of e) m
  unfolding cpio_filesize
  cpio_filesize-entry = ground arith

  pub cpio_next-entry : cpio_next e.header m ≡ ok (content_of e + even (filesize_of e)) m
  unfolding cpio_next
  cpio_next-entry =
      ground (arith, align_even (filesize_of e), cpio_content-entry, cpio_filesize-entry)
