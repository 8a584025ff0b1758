-- ===== src/Kernel/Elf/Header.antt =====
-- The ELF header of a program, and when `load_elf` takes it.
use os.Prelude.{
  ℕ, ◌+◌, ◌≡◌, ◌==◌, ◌&&◌, not, Bool, List, [], ◌∷◌, length, arith, none, if◌then◌else◌, refl,
}
use os.Prelude.Int.{ℤ, is_zero}
use os.Kernel.Cpio.Find.{same_text, is_zero-same_text}
use os.Kernel.Elf.{
  e_phoff, e_phnum, e_entry, e_phentsize, p_type, phdr_size, pt_load, find_load, load_segment,
  load_elf,
}
use os.Kernel.Space.{Space, Config}
use os.LibC.Copy.{memcmp}
use os.LibC.Copy.Fill.{AreBytes, memcmp-eq}
use os.Machine.{ok}
use os.Machine.Memory.{Ptr, Memory, null}
use os.Machine.Memory.Region.{Holds}
use os.Machine.Memory.Words.{load16, load32, load64}

-- The bytes of `elfhdrpat`.
abbrev pub elf_magic : List ℕ
elf_magic = 0x7f ∷ b'E' ∷ b'L' ∷ b'F' ∷ 2 ∷ []

-- What `load_elf` reads of a header and of the types of the program headers.
pub record Header : Type 0 where
  pub magic : List ℕ
  pub phoff : ℕ
  pub phnum : ℕ
  pub entry : ℕ
  pub phentsize : ℕ
  pub types : List ℕ

-- The program headers from `p` on have these types.
abbrev pub Types : Memory → Ptr → List ℕ → Type 0
Types m p [] = Unit {0}
Types m p (t ∷ ts) = (load32 (p_type p) m ≡ ok t m) × Types m (p + phdr_size) ts

-- The first one to load, NULL where there is none.
abbrev pub first_load : Ptr → List ℕ → Ptr
first_load p [] = null
first_load p (t ∷ ts) = if t == pt_load then p else first_load (p + phdr_size) ts

pub record IsHeader (m : Memory) (rawelf : Ptr) (h : Header) : Type 0 where
  pub magic : Holds m rawelf h.magic
  pub five : 5 ≡ length h.magic
  pub bytes : AreBytes h.magic
  pub phoff : load64 (e_phoff rawelf) m ≡ ok h.phoff m
  pub phnum : load16 (e_phnum rawelf) m ≡ ok h.phnum m
  pub entry : load64 (e_entry rawelf) m ≡ ok h.entry m
  pub phentsize : load16 (e_phentsize rawelf) m ≡ ok h.phentsize m
  pub types : Types m (rawelf + h.phoff) h.types
  pub count : h.phnum ≡ length h.types

abbrev pub load_header : (rawelf : Ptr) → Header → Ptr
load_header rawelf h = first_load (rawelf + h.phoff) h.types

-- The program begins with the magic bytes, has an entry, and has program headers of the right size
-- with one to load among them.
unfoldable pub is_sound : (rawelf : Ptr) → Header → Bool
is_sound rawelf h =
    same_text h.magic elf_magic
    && not (h.phoff == 0)
    && not (h.phnum == 0)
    && not (h.entry == 0)
    && (h.phentsize == phdr_size)
    && not (load_header rawelf h == null)

pub find_load-first_load :
    (m : Memory) (p : Ptr) (ts : List ℕ)
    → Types m p ts
    → find_load (length ts) p m ≡ ok (first_load p ts) m
unfolding find_load
find_load-first_load m p [] h = refl
find_load-first_load m p (t ∷ ts) (h, hs) =
    ground (arith, h, find_load-first_load m (p + phdr_size) ts hs)

memcmp-same_text :
    {m : Memory} (s1 s2 : Ptr) (xs ys : List ℕ)
    → 5 ≡ length xs
    → length xs ≡ length ys
    → AreBytes xs
    → AreBytes ys
    → Holds m s1 xs
    → Holds m s2 ys
    → (d : ℤ) × (memcmp s1 s2 5 m ≡ ok d m) × (is_zero d ≡ same_text xs ys)
memcmp-same_text {m} s1 s2 xs ys five e bx by hx hy =
    let (d, run, iff) = memcmp-eq {m = m} s1 s2 xs ys e (omega (arith, five)) bx by hx hy in
    (d, rw five run, is_zero-same_text d xs ys iff)

-- A sound header leads to its segment; any other is refused, with nothing changed.
pub load_elf-header :
    (config : Config) (s : Space) (rawelf : Ptr) (h : Header)
    → Holds s.memory config.elfhdrpat elf_magic
    → IsHeader s.memory rawelf h
    → load_elf config rawelf s ≡ (
        if is_sound rawelf h
        then load_segment rawelf h.entry (load_header rawelf h) s
        else ok none s)
unfolding load_elf is_sound
load_elf-header config s rawelf h pat v =
    let (d, run, z) =
      memcmp-same_text {m = s.memory} rawelf config.elfhdrpat h.magic elf_magic v.five
        (omega (arith, v.five)) v.bytes (omega arith) v.magic pat in
    let found : find_load h.phnum (rawelf + h.phoff) s.memory ≡ ok (load_header rawelf h) s.memory =
      rw v.count (find_load-first_load s.memory (rawelf + h.phoff) h.types v.types) in
    ground (arith, run, z, v.phoff, v.phnum, v.entry, v.phentsize, found)
