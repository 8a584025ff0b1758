-- ===== src/Kernel/Elf/Segment.antt =====
-- What `load_segment` leaves in memory.
use os.Prelude.{
  ℕ, ◌+◌, ◌-◌, ◌*◌, ◌/◌, ◌%◌, ◌^◌, ◌≤◌, ◌<◌, ◌≡◌, ◌⊎◌, arith, some, none, List, length, replicate,
  length-replicate, ◌∙◌, ltb, leb, false,
}
use os.Prelude.Int.{pos}
use os.Machine.{ok}
use os.Machine.Memory.{Ptr, Memory}
use os.Machine.Memory.Frame.{load64-frame, Holds-Mapped, Holds-replicate_rest}
use os.Machine.Memory.Region.{Holds, Mapped, SameOutside, Holds-frame}
use os.Machine.Memory.Words.{load64}
use os.LibC.Copy.{memset, memcpy, to_byte}
use os.LibC.Copy.Fill.{memset_lem}
use os.LibC.Copy.Move.{memcpy_lem}
use os.Kernel.Align.{align}
use os.Kernel.Align.Mask.{align_page}
use os.Kernel.Alloc.{allocinit}
use os.Kernel.Alloc.Arena.{IsArena, alloc_lem}
use os.Kernel.Elf.{to_int, load_segment, p_vaddr, p_memsz, p_offset, p_filesz}
use os.Kernel.Space
use os.Kernel.Space.{Space}

-- `n` rounded up to whole pages.
abbrev pub pages : ℕ → ℕ
pages n = (n + 0xfff) / 2 ^ 12 * 2 ^ 12

align-pages : (n : ℕ) → n + 0xfff < 2 ^ 31 → align n 0xfff ≡ pages n
align-pages n h = align_page n ∙ omega arith

pub to_int-pages : (n : ℕ) → n + 0xfff < 2 ^ 31 → to_int (align n 0xfff) ≡ pos (pages n)
to_int-pages n h = rw (align-pages n h) (ground arith)

-- The two stretches do not meet.
abbrev pub Apart : (p n q k : ℕ) → Type 0
Apart p n q k = (p + n ≤ q) ⊎ (q + k ≤ p)

-- A segment that the file describes soundly and for which the arena has room.
pub record IsSegment (s : Space) (rawelf entry hdr : Ptr) (bytes : List ℕ)
    (vaddr memsz offset filesz : ℕ) : Type 0 where
  pub reads_vaddr : load64 (p_vaddr hdr) s.memory ≡ ok vaddr s.memory
  pub reads_memsz : load64 (p_memsz hdr) s.memory ≡ ok memsz s.memory
  pub reads_offset : load64 (p_offset hdr) s.memory ≡ ok offset s.memory
  pub reads_filesz : load64 (p_filesz hdr) s.memory ≡ ok filesz s.memory
  pub starts : vaddr ≤ entry
  pub ends : entry < vaddr + memsz
  pub no_wrap : vaddr + memsz < 2 ^ 64
  pub small : memsz + 0xfff < 2 ^ 31
  pub fits : filesz ≤ memsz
  pub file : Holds s.memory (rawelf + offset) bytes
  pub length_file : filesz ≡ length bytes
  pub arena : IsArena s.globals s.execbufp
  pub room : allocinit s.globals s.execbufp + pages memsz ≤ s.globals.mem + s.globals.memsz
  pub mapped : Mapped s.memory (allocinit s.globals s.execbufp) memsz
  pub header_apart : Apart hdr 56 (allocinit s.globals s.execbufp) memsz
  pub file_apart : Apart (rawelf + offset) filesz (allocinit s.globals s.execbufp) memsz

module _ {s : Space} {rawelf entry hdr : Ptr} {bytes : List ℕ} {vaddr memsz offset filesz : ℕ}
    (v : IsSegment s rawelf entry hdr bytes vaddr memsz offset filesz) where
  open v use {
    reads_vaddr, reads_memsz, reads_offset, reads_filesz, starts, ends, no_wrap, small, fits, file,
    length_file, arena, room, mapped, header_apart, file_apart,
  }

  abbrev b : Ptr
  b = allocinit s.globals s.execbufp

  alloc-room :
      Space.alloc (to_int (align memsz 0xfff)) s ≡ ok b (record s { execbufp = b + pages memsz })
  unfolding Space.alloc
  alloc-room = rw (to_int-pages memsz small) (ground (arith, alloc_lem arena (pages memsz)))

  -- The memory after `memset`, and after `memcpy`.
  record Copied (m1 m2 : Memory) : Type 0 where
    cleared : memset b (pos 0) memsz s.memory ≡ ok b m1
    offset_read : load64 (p_offset hdr) m1 ≡ ok offset m1
    filesz_read : load64 (p_filesz hdr) m1 ≡ ok filesz m1
    copied : memcpy b (rawelf + offset) filesz m1 ≡ ok b m2
    holds : Holds m2 b bytes
    zeros : Holds m2 (b + filesz) (replicate (memsz - filesz) 0)
    same : SameOutside b memsz s.memory m2

  copy : (m1 m2 : Memory) × Copied m1 m2
  copy =
      let (m1, set, zeros, same) = memset_lem b (pos 0) memsz mapped in
      let (m2, cpy, holds, same') =
        memcpy_lem {m = m1} b (rawelf + offset) filesz bytes length_file
          (Holds-frame (rawelf + offset) bytes (λ a l u. same a (omega arith)) file)
          (Holds-Mapped m1 b _ filesz (omega (arith, length-replicate memsz (to_byte (pos 0))))
            zeros)
          (omega arith) in
      (
        m1,
        m2,
        record {
          cleared = set;
          offset_read =
              load64-frame s.memory m1 _ offset (λ a l u. same a (omega arith)) reads_offset;
          filesz_read =
              load64-frame s.memory m1 _ filesz (λ a l u. same a (omega arith)) reads_filesz;
          copied = cpy;
          holds = holds;
          zeros =
              Holds-frame (b + filesz) _ (λ a l u. same' a (omega arith))
                (Holds-replicate_rest m1 b filesz memsz 0 fits zeros);
          same = λ a o. same' a (omega arith) ∙ same a (omega arith);
        },
      )

  load_segment-Copied :
      (m1 m2 : Memory)
      → Copied m1 m2
      → load_segment rawelf entry hdr s
        ≡ ok
            (some (record { entry = b + (entry - vaddr); load = b; loadsz = pos (pages memsz) }))
            (record s { memory = m2; execbufp = b + pages memsz })
  unfolding load_segment
  load_segment-Copied m1 m2 c =
      let e : b + entry - vaddr ≡ b + (entry - vaddr) = omega arith in
      let size : to_int (align memsz 0xfff) ≡ pos (pages memsz) = to_int-pages memsz small in
      let below : ltb entry vaddr ≡ false = ground arith in
      let inside : leb ((vaddr + memsz) % 2 ^ 64) entry ≡ false = ground arith in
      ground (arith, alloc-room)

-- A segment that is described soundly, with room in a mapped arena apart from the file, is loaded:
-- its bytes stand at the mark, zeros behind them up to its size in memory, and nothing else has
-- changed; the entry is as far into the copy as it is into the segment; and the mark has moved by
-- whole pages.
pub load_segment-ok :
    {s : Space} {rawelf entry hdr : Ptr} {bytes : List ℕ} {vaddr memsz offset filesz : ℕ}
    → IsSegment s rawelf entry hdr bytes vaddr memsz offset filesz
    → let b = allocinit s.globals s.execbufp in
      (m : Memory) × (load_segment rawelf entry hdr s
        ≡ ok
            (some (record { entry = b + (entry - vaddr); load = b; loadsz = pos (pages memsz) }))
            (record s { memory = m; execbufp = b + pages memsz }))
      × Holds m b bytes
      × Holds m (b + filesz) (replicate (memsz - filesz) 0)
      × SameOutside b memsz s.memory m
      × (entry - vaddr < memsz)
load_segment-ok v =
    let (m1, m2, c) = copy v in
    (m2, load_segment-Copied v m1 m2 c, c.holds, c.zeros, c.same, omega (arith, v.ends, v.starts))

-- A segment whose bounds do not wrap and do not hold the entry is refused, and nothing has changed.
pub load_segment-none :
    (s : Space) (rawelf entry hdr : Ptr) (vaddr memsz : ℕ)
    → load64 (p_vaddr hdr) s.memory ≡ ok vaddr s.memory
    → load64 (p_memsz hdr) s.memory ≡ ok memsz s.memory
    → vaddr + memsz < 2 ^ 64
    → (entry < vaddr) ⊎ (vaddr + memsz ≤ entry)
    → load_segment rawelf entry hdr s ≡ ok none s
unfolding load_segment
load_segment-none s rawelf entry hdr vaddr memsz r r' w out = ground arith
