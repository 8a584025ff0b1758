-- ===== src/Kernel/Pool/Live.antt =====
-- The pool keeps account of its blocks: those handed out, those on the free list, those never used.
use mathlib.Core.List.{Mem, Nodup, Perm, mem-append, Nodup-cons, perm_middle, mem-cons}
use mathlib.Core.List.Perm
use mathlib.Core.Logic.Or
use native.Mathlib.Bridge.{from_ℕ}
use os.Prelude.{
  ℕ, suc, ◌+◌, ◌*◌, ◌≤◌, ◌<◌, ◌≡◌, ◌≢◌, refl, ap, sym, ◌∙◌, ◌⊎◌, inl, inr, List, [], ◌∷◌, ◌++◌,
  length, length-append, arith, Bool-cases, ltb, true, false,
}
use os.Machine.Memory.{Ptr, null}
use os.Kernel.Pool.{Slist, Pool, pool_init, pool_initializer, pool_alloc, pool_free}
use os.Kernel.Pool.Api.{PoolApi}
use os.Kernel.Pool.Blocks.{
  blocks, length-blocks, from_ℕ-length, mem-blocks-ge, mem-blocks-lt, Nodup-blocks,
}

Perm-length : {xs ys : List Ptr} → Perm xs ys → length xs ≡ length ys
Perm-length {xs} {ys} p = sym (from_ℕ-length xs) ∙ ap from_ℕ (Perm.length-eq p) ∙ from_ℕ-length ys

module _ (slist : Slist) (nmemb : ℕ) where
  open slist use {items, items-init, first-nil, first-cons, items-remove_head, items-insert_head}

  -- `live` are the blocks handed out: with the free ones they are the blocks used so far.
  pub record IsLive (p : Pool slist) (live : List Ptr) : Type 0 where
    pub used : ℕ
    pub start : p.freestart ≡ p.mem + used * p.membsz
    pub stop : p.freeend ≡ p.mem + nmemb * p.membsz
    pub bound : used ≤ nmemb
    pub size : 0 < p.membsz
    pub not_null : 0 < p.mem
    pub account : Perm (live ++ items p.freehead) (blocks p.mem p.membsz used)

  -- `pool_init` on a stretch that is not at NULL, for blocks that are not empty, leaves no block
  -- handed out.
  pool_init-IsLive :
      (mem : Ptr) (membsz : ℕ) → 0 < mem → 0 < membsz → IsLive (pool_init slist mem nmemb membsz) []
  unfolding pool_init
  pool_init-IsLive mem membsz hm hs = record {
    used = 0;
    start = omega arith;
    stop = refl;
    bound = omega arith;
    size = hs;
    not_null = hm;
    account = rw items-init (Perm.refl []);
  }

  -- The initializer has the effect of `pool_init`.
  pool_initializer-pool_init :
      (mem : Ptr) (membsz : ℕ)
      → pool_initializer slist mem nmemb membsz ≡ pool_init slist mem nmemb membsz
  unfolding pool_init pool_initializer
  pool_initializer-pool_init mem membsz = refl

  pub pool_initializer-IsLive :
      (mem : Ptr) (membsz : ℕ)
      → 0 < mem
      → 0 < membsz
      → IsLive (pool_initializer slist mem nmemb membsz) []
  pool_initializer-IsLive mem membsz hm hs =
      rw (pool_initializer-pool_init mem membsz) (pool_init-IsLive mem membsz hm hs)

  module _ (p : Pool slist) (live : List Ptr) (v : IsLive p live) where
    open v use {used, start, stop, bound, size, not_null, account}

    used-eq : used ≡ length live + length (items p.freehead)
    used-eq = omega (
      arith,
      Perm-length account,
      length-blocks p.mem p.membsz used,
      length-append live (items p.freehead),
    )

    Nodup-all : Nodup (live ++ items p.freehead)
    Nodup-all = Perm.nodup (Perm.symm account) (Nodup-blocks p.mem p.membsz used size)

    live-lt : {r : Ptr} → Mem r live → r < p.freestart
    live-lt h = omega (
      arith,
      mem-blocks-lt p.mem p.membsz used ((Perm.mem_iff account).0 (mem-append.1 (Or.inl h))),
    )

    alloc_fresh :
        p.freestart < p.freeend
        → (pool_alloc slist p ≡ (record p { freestart = p.freestart + p.membsz }, p.freestart))
          × IsLive (record p { freestart = p.freestart + p.membsz }) (p.freestart ∷ live)
    unfolding pool_alloc
    alloc_fresh h = (
      ground arith,
      record {
        used = suc used;
        start = grind arith;
        stop = stop;
        bound = grind arith;
        size = size;
        not_null = not_null;
        account = rw start (Perm.cons _ account);
      },
    )

    module _ {x : Ptr} {xs : List Ptr} (e : items p.freehead ≡ x ∷ xs) where
      reuse_account : Perm ((x ∷ live) ++ xs) (blocks p.mem p.membsz used)
      reuse_account = Perm.trans (Perm.symm (perm_middle live xs)) (rw e at account)

      reuse-ne-null : x ≢ null
      reuse-ne-null z =
          let i =
            mem-blocks-ge p.mem p.membsz used
              ((Perm.mem_iff reuse_account).0 (mem-cons.1 (Or.inl refl))) in
          omega arith

      reuse_fresh : ¬ Mem x live
      reuse_fresh i =
          (Nodup-cons.0
              (Perm.nodup (Perm.symm reuse_account) (Nodup-blocks p.mem p.membsz used size))).0
            (mem-append.1 (Or.inl i))

      alloc_reuse :
          ltb p.freestart p.freeend ≡ false
          → (pool_alloc slist p ≡ (record p { freehead = slist.remove_head p.freehead }, x))
            × IsLive (record p { freehead = slist.remove_head p.freehead }) (x ∷ live)
      unfolding pool_alloc
      alloc_reuse h = (
        ground (arith, first-cons p.freehead e, reuse-ne-null),
        record {
          used = used;
          start = start;
          stop = stop;
          bound = bound;
          size = size;
          not_null = not_null;
          account = rw (items-remove_head p.freehead e) reuse_account;
        },
      )

    unused_left : ltb p.freestart p.freeend ≡ true → used < nmemb
    unused_left h = grind arith

    -- Once the blocks are used up they number as said.
    used_up : ltb p.freestart p.freeend ≡ false → used ≡ nmemb
    used_up h = grind arith

    alloc_none :
        ltb p.freestart p.freeend ≡ false → items p.freehead ≡ [] → pool_alloc slist p ≡ (p, null)
    unfolding pool_alloc
    alloc_none h e = ground (arith, first-nil p.freehead e)

    -- `pool_alloc` returns NULL and changes nothing where all blocks are handed out, and else hands
    -- out one more, which is not NULL and was not handed out.
    pub pool_alloc-IsLive :
        (length live ≡ nmemb) × (pool_alloc slist p ≡ (p, null))
        ⊎ (length live < nmemb)
          × ((pool_alloc slist p).1 ≢ null)
          × (¬ Mem (pool_alloc slist p).1 live)
          × IsLive (pool_alloc slist p).0 ((pool_alloc slist p).1 ∷ live)
    pool_alloc-IsLive = elim (Bool-cases (ltb p.freestart p.freeend)) [
      | inl y ↦
          let lt : p.freestart < p.freeend = ground arith in
          let (e, after) = alloc_fresh lt in
          inr (
            omega (arith, used-eq, unused_left y),
            rw e (λ z. omega arith),
            rw e (λ i. absurd (omega (arith, live-lt i))),
            rw e after,
          )
      | inr n ↦ from_list (items p.freehead) refl n
    ]
      where
        from_list :
            (l : List Ptr)
            → items p.freehead ≡ l
            → ltb p.freestart p.freeend ≡ false
            → (length live ≡ nmemb) × (pool_alloc slist p ≡ (p, null))
              ⊎ (length live < nmemb)
                × ((pool_alloc slist p).1 ≢ null)
                × (¬ Mem (pool_alloc slist p).1 live)
                × IsLive (pool_alloc slist p).0 ((pool_alloc slist p).1 ∷ live)
        from_list [] e n = inl (omega (arith, used_up n, used-eq, ap length e), alloc_none n e)
        from_list (x ∷ xs) e n =
            let (same, after) = alloc_reuse e n in
            inr (
              omega (arith, used-eq, ap length e),
              rw same (reuse-ne-null e),
              rw same (reuse_fresh e),
              rw same after,
            )

  -- `pool_free` takes any block that is handed out back.
  pub pool_free-IsLive :
      (p : Pool slist) (r : Ptr) (xs ys : List Ptr)
      → IsLive p (xs ++ r ∷ ys)
      → IsLive (pool_free slist p r) (xs ++ ys)
  unfolding pool_free
  pool_free-IsLive p r xs ys v = record {
    used = used;
    start = start;
    stop = stop;
    bound = bound;
    size = size;
    not_null = not_null;
    account = rw (items-insert_head r p.freehead) (
        Perm.trans (perm_middle (xs ++ ys) (items p.freehead)) (
          Perm.trans (Perm.symm (Perm.append_right (items p.freehead) (perm_middle xs ys)))
            account));
  }
    where
      open v use {used, start, stop, bound, size, not_null, account}

  pub live-le : (p : Pool slist) (live : List Ptr) → IsLive p live → length live ≤ nmemb
  live-le p live v = omega (arith, used-eq p live v, v.bound)

  pub alloc-full :
      (p : Pool slist) (live : List Ptr)
      → IsLive p live
      → length live ≡ nmemb
      → pool_alloc slist p ≡ (p, null)
  alloc-full p live v full = elim (pool_alloc-IsLive p live v) [
    | inl (_, e) ↦ e
    | inr (lt, _, _, _) ↦ absurd (omega arith)
  ]

  pub alloc-ok :
      (p : Pool slist) (live : List Ptr)
      → IsLive p live
      → length live < nmemb
      → ((pool_alloc slist p).1 ≢ null)
        × (¬ Mem (pool_alloc slist p).1 live)
        × IsLive (pool_alloc slist p).0 ((pool_alloc slist p).1 ∷ live)
  alloc-ok p live v lt = elim (pool_alloc-IsLive p live v) [
    | inl (full, _) ↦ absurd (omega arith)
    | inr (_, a, b, c) ↦ (a, b, c)
  ]

  -- The pool keeps what `PoolApi` promises.
  abbrev pub pool_api : PoolApi
  pool_api = record {
    State = Pool slist;
    alloc = pool_alloc slist;
    free = pool_free slist;
    capacity = nmemb;
    Live = IsLive;
    live-le = live-le;
    alloc-full = alloc-full;
    alloc-ok = alloc-ok;
    free-ok = pool_free-IsLive;
  }
