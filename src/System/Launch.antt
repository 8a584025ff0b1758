-- ===== src/System/Launch.antt =====
-- What `sys_run` and `run_first` of kernel/ksys.c need to start a program of the archive: the
-- loader then succeeds, and so does the allocation of the stack.
pub mod First
pub mod Run
pub mod Trap
use os.Prelude.{
  ℕ, ◌+◌, ◌-◌, ◌≤◌, ◌<◌, ◌≡◌, ◌≢◌, ◌⊎◌, inl, inr, List, ◌∷◌, length, arith, refl, true, some, none,
  ◌∙◌, ◌==◌, if◌then◌else◌,
}
use os.Prelude.Int.{ℤ, pos}
use os.Hal.Context.{Context, sub64, ctx_save}
use os.Kernel.Alloc
use os.Kernel.Alloc.{allocinit}
use os.Kernel.Alloc.Arena.{IsArena, alloc_lem, allocinit-bounds}
use os.Kernel.Cpio.Archive.{Entry, content_of}
use os.Kernel.Elf.{Loaded, load}
use os.Kernel.Elf.Header.{Header, is_sound, load_header}
use os.Kernel.Elf.Segment.{IsSegment, pages}
use os.Kernel.Elf.Whole.{HasArchive, IsProgram, load_lem}
use os.Kernel.Pool.Api.{PoolApi}
use os.Kernel.Process.{Kernel, Proc, set_proc, sys_run, run_loaded, alloc_stack, stack_size}
use os.Kernel.Space
use os.Kernel.Space.{Space, Config}
use os.Machine.{ok}
use os.Machine.Memory.{Ptr, Memory, null}
use os.Machine.Memory.Region.{CString, Holds, SameOutside}
use os.Machine.Memory.Words.{load64}
use os.System.{Nested, HasMemory}
use os.System.Run.{allocinit_set}
use os.System.Start.{sys_run-Nested}

-- The mark of the allocator, which the first use sets, and the state behind that.
abbrev pub mark_of : Space → Ptr
mark_of s = allocinit s.globals s.execbufp

abbrev pub marked : Space → Space
marked s = record s { execbufp = mark_of s }

-- The program that `argv` names stands in the archive, is sound, and has room in the arena with a
-- stack behind it.
pub record CanStart (config : Config) (s : Space) (argv : Ptr) (e : Entry) (h : Header)
    (bytes : List ℕ) (vaddr memsz offset filesz : ℕ) : Type 0 where
  pub name : Ptr
  pub text : List ℕ
  pub entries : List Entry
  pub argv0 : load64 argv s.memory ≡ ok name s.memory
  pub name_set : name ≢ null
  pub named : CString s.memory name text
  pub archive : HasArchive config s entries
  pub program : IsProgram s entries text e h
  pub sound : is_sound (content_of e) h ≡ true
  pub segment :
      IsSegment s
        (content_of e)
        h.entry
        (load_header (content_of e) h)
        bytes
        vaddr
        memsz
        offset
        filesz
  pub room : mark_of s + pages memsz + stack_size ≤ s.globals.mem + s.globals.memsz

-- What is loaded.
abbrev pub loaded_at : (b : Ptr) (h : Header) (vaddr memsz : ℕ) → Loaded
loaded_at b h vaddr memsz = record {
  entry = b + (h.entry - vaddr);
  load = b;
  loadsz = pos (pages memsz);
}

pub loads :
    (config : Config) {s : Space} {argv : Ptr} {e : Entry} {h : Header} {bytes : List ℕ}
    {vaddr memsz offset filesz : ℕ}
    (can : CanStart config s argv e h bytes vaddr memsz offset filesz)
    → (m : Memory) × (load config can.name s
        ≡ ok
            (some (loaded_at (mark_of s) h vaddr memsz))
            (record s { memory = m; execbufp = mark_of s + pages memsz }))
      × Holds m (mark_of s) bytes
      × SameOutside (mark_of s) memsz s.memory m
loads config {s} {e = e} {h} {bytes} {vaddr} {memsz} {offset} {filesz} can =
    let (m, run, holds, zeros, same, inside) =
      load_lem config s can.entries can.archive can.name can.text can.named e h bytes vaddr memsz
        offset filesz can.program can.sound can.segment in
    (m, run, holds, same)

module _ (api : PoolApi) (newp stack : Ptr) (loaded : Loaded) (k : Kernel api) where
  abbrev pub with_stack : Kernel api
  with_stack =
      set_proc api newp
        (record (k.procs newp) {
          load = loaded.load;
          loadsz = loaded.loadsz;
          stacksz = stack_size;
          stack = stack;
        })
        (record k { space = record k.space { execbufp = stack + stack_size } })

  -- The stack is taken from the mark on.
  pub alloc_stack-with_stack :
      k.space.execbufp ≡ stack
      → IsArena k.space.globals stack
      → stack ≢ null
      → stack + stack_size ≤ k.space.globals.mem + k.space.globals.memsz
      → alloc_stack api newp loaded k ≡ ok stack with_stack
  unfolding alloc_stack Space.alloc
  alloc_stack-with_stack e v ne room =
      let set : allocinit k.space.globals stack ≡ stack = allocinit_set k.space.globals stack ne in
      elim (alloc_lem v stack_size) [
        | inl (full, r) ↦ absurd (omega (arith, rw set at full, room))
        | inr (fits, r, w) ↦ rw (e, rw set at r)
      ]
