-- ===== src/Kernel/Pool.antt =====
-- kernel/pool.c and kernel/pool.h. The SLIST macros of kernel/third-party/queue.h are a parameter:
-- the head of a free list with what the code relies on, that it is a stack of blocks. (The macros
-- keep the links inside the free blocks, so those must not be written while they are free.)
pub mod Api
pub mod Blocks
pub mod Live
use os.Prelude.{ℕ, ◌+◌, ◌*◌, ◌≡◌, ◌≢◌, List, [], ◌∷◌, ltb, ◌==◌, if◌then◌else◌}
use os.Machine.Memory.{Ptr, null}

pub record Slist : Type 1 where
  pub Head : Type 0
  pub init : Head
  pub first : Head → Ptr
  pub remove_head : Head → Head
  pub insert_head : Ptr → Head → Head
  pub items : Head → List Ptr
  pub items-init : items init ≡ []
  pub first-nil : (h : Head) → items h ≡ [] → first h ≡ null
  pub first-cons : (h : Head) {x : Ptr} {xs : List Ptr} → items h ≡ x ∷ xs → first h ≡ x
  pub items-remove_head :
      (h : Head) {x : Ptr} {xs : List Ptr} → items h ≡ x ∷ xs → items (remove_head h) ≡ xs
  pub items-insert_head : (p : Ptr) (h : Head) → items (insert_head p h) ≡ p ∷ items h

module _ (slist : Slist) where
  open slist use {Head, init, first, remove_head, insert_head}

  pub record Pool : Type 0 where
    pub mem : Ptr
    pub membsz : ℕ
    pub freestart : Ptr
    pub freeend : Ptr
    pub freehead : Head

  unfoldable pub pool_init : (mem : Ptr) (nmemb membsz : ℕ) → Pool
  pool_init mem nmemb membsz = record {
    mem = mem;
    membsz = membsz;
    freestart = mem;
    freeend = mem + nmemb * membsz;
    freehead = init;
  }

  -- `POOL_INITIALIZER`, with which the pool of processes starts.
  unfoldable pub pool_initializer : (mem : Ptr) (nmemb membsz : ℕ) → Pool
  pool_initializer mem nmemb membsz = record {
    mem = mem;
    membsz = membsz;
    freehead = init;
    freestart = mem;
    freeend = mem + nmemb * membsz;
  }

  unfoldable pub pool_alloc : Pool → Pool × Ptr
  pool_alloc p =
      if ltb p.freestart p.freeend
      then (record p { freestart = p.freestart + p.membsz }, p.freestart)
      else let fb = first p.freehead in
        if fb == null then (p, null) else (record p { freehead = remove_head p.freehead }, fb)

  unfoldable pub pool_free : Pool → Ptr → Pool
  pool_free p ptr = record p { freehead = insert_head ptr p.freehead }
