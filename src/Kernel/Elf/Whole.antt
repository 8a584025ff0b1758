-- ===== src/Kernel/Elf/Whole.antt =====
-- `load` as a whole: an archive, the header of the program in it, and its segment.
use os.Prelude.{
  ℕ, ◌+◌, ◌-◌, ◌^◌, Bool-cases, inl, inr, ◌≤◌, ◌<◌, ◌≡◌, ◌≢◌, ◌⊎◌, true, false, List, length,
  replicate, arith, some, none, ◌∙◌, if◌then◌else◌,
}
use os.Prelude.Int.{pos}
use os.Kernel.Alloc.{allocinit}
use os.Kernel.Cpio.{find_exe}
use os.Kernel.Cpio.Archive.{Entry, IsEntry, content_of, cpio_content-entry}
use os.Kernel.Cpio.Find.{Archive, trailer_name, find_entry, find_exe-entry}
use os.Kernel.Elf.{load_segment, load_elf, load, p_vaddr, p_memsz}
use os.Kernel.Elf.Header.{elf_magic, Header, IsHeader, load_header, is_sound, load_elf-header}
use os.Kernel.Elf.Segment.{IsSegment, pages, load_segment-ok, load_segment-none}
use os.Kernel.Space.{Space, Config}
use os.Machine.{ok}
use os.Machine.Memory.{Ptr, Memory, null}
use os.Machine.Memory.Region.{CString, Holds, SameOutside}
use os.Machine.Memory.Words.{load64}

-- The archive with the entries `es` and the kernel's literals stand in memory, and the fuel is
-- enough for them.
pub record HasArchive (config : Config) (s : Space) (es : List Entry) : Type 0 where
  pub archive : Archive s.memory config.chars s.globals.rootfs_cpio es
  pub entries : length es < config.entries
  pub chars : 10 < config.chars
  pub trailer : CString s.memory config.trailer trailer_name
  pub pattern : Holds s.memory config.elfhdrpat elf_magic

-- The entry is the first with that name, and a program stands in it.
pub record IsProgram (s : Space) (es : List Entry) (text : List ℕ) (e : Entry) (h : Header)
    : Type 0 where
  pub found : find_entry text es ≡ e.header
  pub not_null : e.header ≢ null
  pub entry : IsEntry s.memory e
  pub header : IsHeader s.memory (content_of e) h

-- Why a program is refused.
pub data Refusal (s : Space) (es : List Entry) (text : List ℕ) : Type 0 where
  no_entry : find_entry text es ≡ null → Refusal s es text
  unsound :
      (e : Entry) (h : Header)
      → IsProgram s es text e h
      → is_sound (content_of e) h ≡ false
      → Refusal s es text
  entry_outside :
      (e : Entry) (h : Header) (vaddr memsz : ℕ)
      → IsProgram s es text e h
      → load64 (p_vaddr (load_header (content_of e) h)) s.memory ≡ ok vaddr s.memory
      → load64 (p_memsz (load_header (content_of e) h)) s.memory ≡ ok memsz s.memory
      → vaddr + memsz < 2 ^ 64
      → (h.entry < vaddr) ⊎ (vaddr + memsz ≤ h.entry)
      → Refusal s es text

module _ (config : Config) (s : Space) (es : List Entry) (has : HasArchive config s es) (name : Ptr)
    (text : List ℕ) (named : CString s.memory name text) where
  found_exe :
      find_exe config.trailer config.chars config.entries s.globals name s.memory
      ≡ ok (find_entry text es) s.memory
  found_exe =
      find_exe-entry s.memory s.globals config.trailer name config.chars config.entries text es
        has.chars has.entries has.trailer named has.archive

  load-no_entry : find_entry text es ≡ null → load config name s ≡ ok none s
  unfolding load
  load-no_entry e = ground (arith, found_exe, e)

  load-load_elf :
      (e : Entry) (h : Header)
      → IsProgram s es text e h
      → load config name s ≡ load_elf config (content_of e) s
  unfolding load
  load-load_elf e h v = ground (arith, found_exe, v.found, v.not_null, cpio_content-entry v.entry)

  load-header :
      (e : Entry) (h : Header)
      → IsProgram s es text e h
      → load config name s ≡ (
          if is_sound (content_of e) h
          then load_segment (content_of e) h.entry (load_header (content_of e) h) s
          else ok none s)
  load-header e h v =
      load-load_elf e h v ∙ load_elf-header config s (content_of e) h has.pattern v.header

  -- A name that is not in the archive, a program whose header is not sound, and one whose entry
  -- lies outside of its segment, with bounds that do not wrap: `load` refuses each, and changes
  -- nothing.
  pub load_refuses : Refusal s es text → load config name s ≡ ok none s
  load_refuses (no_entry e) = load-no_entry e
  load_refuses (unsound e h v bad) = rw bad at (load-header e h v)
  load_refuses (entry_outside e h vaddr memsz v rv rm wrap out) =
      elim (Bool-cases (is_sound (content_of e) h)) [
        | inl sound ↦
            rw sound at (load-header e h v)
            ∙ load_segment-none s (content_of e) h.entry (load_header (content_of e) h) vaddr memsz
                rv rm wrap out
        | inr bad ↦ rw bad at (load-header e h v)
      ]

  -- A program with a sound header and a soundly described segment, with room in a mapped arena
  -- apart from the file, is loaded: the bytes of the segment stand at the mark, with zeros behind
  -- them up to its size in memory, and nothing else has changed; the entry lies as far into the
  -- copy as into the segment; and the mark has moved by whole pages.
  pub load_lem :
      (e : Entry) (h : Header) (bytes : List ℕ) (vaddr memsz offset filesz : ℕ)
      → IsProgram s es text e h
      → is_sound (content_of e) h ≡ true
      → IsSegment s
          (content_of e)
          h.entry
          (load_header (content_of e) h)
          bytes
          vaddr
          memsz
          offset
          filesz
      → let b = allocinit s.globals s.execbufp in
        (m : Memory) × (load config name s
          ≡ ok
              (some
                (record { entry = b + (h.entry - vaddr); load = b; loadsz = pos (pages memsz) }))
              (record s { memory = m; execbufp = b + pages memsz }))
        × Holds m b bytes
        × Holds m (b + filesz) (replicate (memsz - filesz) 0)
        × SameOutside b memsz s.memory m
        × (h.entry - vaddr < memsz)
  load_lem e h bytes vaddr memsz offset filesz v sound seg =
      let (m, run, holds, zeros, same, inside) = load_segment-ok seg in
      (m, rw sound at (load-header e h v) ∙ run, holds, zeros, same, inside)
