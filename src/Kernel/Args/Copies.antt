-- ===== src/Kernel/Args/Copies.antt =====
-- What `sys_getargv` leaves in the buffers of its caller.
use os.Prelude.{
  ℕ, zero, suc, ◌+◌, ◌-◌, ◌*◌, ◌^◌, ◌≤◌, ◌<◌, ◌≡◌, ◌⊎◌, some, List, [], ◌∷◌, length, arith, refl,
  ◌∙◌,
}
use os.Prelude.Int.{ℤ, pos, ◌+ℤ◌, ◌-ℤ◌, to_int-small}
use os.Kernel.Args.{copy_args, end_args, sys_getargv}
use os.LibC.Copy.{strcpy}
use os.LibC.Copy.Move.{strcpy_lem}
use os.LibC.Scan.Length.{strlen_lem}
use os.Machine.{Run, ok}
use os.Machine.Memory.{Ptr, null, Memory}
use os.Machine.Memory.Frame.{load64-frame}
use os.Machine.Memory.Region.{CString, Holds, Holds-frame, SameOutside}
use os.Machine.Memory.Store.{
  AllMapped, Mapped_of_all, AllMapped-put64, put64, store64-put64, SameOutside-put64, load64-put64,
}
use os.Machine.Memory.Strings.{CString-copied, Strings, Strings-frame}
use os.Machine.Memory.Words.{load64}

-- The bytes that the strings take, each with its NUL.
abbrev pub total : List (List ℕ) → ℕ
total [] = 0
total (w ∷ ws) = length w + 1 + total ws

-- The caller's buffer, from `buf` to `top`, and its `cap` entries of `argv`, apart from each other
-- and from the argument vector, the `count` entries from `args` on, with its strings in the bytes
-- `lo` to `hi`. The size of the buffer is an `int`.
pub record Layout (chars : ℕ) (buf top argv cap args count lo hi : ℕ) : Type 0 where
  pub above : 0 < lo
  pub short : hi < lo + chars
  pub small : top < 2 ^ 64
  pub size : top < buf + 2 ^ 31
  pub buf_argv : (top ≤ argv) ⊎ (argv + 8 * cap ≤ buf)
  pub buf_args : (top ≤ args) ⊎ (args + 8 * count ≤ buf)
  pub buf_text : (top ≤ lo) ⊎ (hi < buf)
  pub argv_args : (argv + 8 * cap ≤ args) ⊎ (args + 8 * count ≤ argv)
  pub argv_text : (argv + 8 * cap ≤ lo) ⊎ (hi < argv)

module _ (chars buf top argv cap args count lo hi : ℕ)
    (layout : Layout chars buf top argv cap args count lo hi) where
  open layout use {above, short, small, size, buf_argv, buf_args, buf_text, argv_args, argv_text}

  -- Before argument `i`, which is to be copied to `bufp`.
  pub record Ready (m : Memory) (i arg bufp : ℕ) (ws : List (List ℕ)) : Type 0 where
    pub strings : Strings lo hi m arg ws
    pub end : load64 (arg + 8 * length ws) m ≡ ok null m
    pub zeros : (a : Ptr) → bufp ≤ a → a < top → m a ≡ some 0
    pub array : AllMapped m argv (8 * cap)
    pub room : i + length ws < cap
    pub fits : bufp + total ws ≤ top
    pub from : buf ≤ bufp
    pub at : args ≤ arg
    pub stop : arg + 8 * length ws + 8 ≤ args + 8 * count

  -- The strings `ws` stand in the buffer with pointers to them from entry `i` on and NULL behind,
  -- and nothing else has changed.
  pub record Copied (m : Memory) (i bufp : ℕ) (ws : List (List ℕ)) (r : Run Memory ℤ) : Type 0 where
    pub mem : Memory
    pub returns : r ≡ ok (pos (i + length ws)) mem
    pub strings : Strings buf top mem (argv + 8 * i) ws
    pub end : load64 (argv + 8 * (i + length ws)) mem ≡ ok null mem
    pub same :
        (a : Ptr) → (a < bufp) ⊎ (top ≤ a) → (a < argv + 8 * i) ⊎ (argv + 8 * cap ≤ a) → mem a ≡ m a

  Copied-end :
      (k : ℕ) (m : Memory) (i arg bufp : ℕ)
      → Ready m i arg bufp []
      → Copied m i bufp []
          (copy_args chars buf (pos (top - buf)) argv (pos cap) (suc k) arg i bufp m)
  unfolding copy_args end_args
  Copied-end k m i arg bufp ready =
      let slot : Ptr = argv + 8 * i in
      let r = ready.room in
      let stored =
        store64-put64 m slot 0
          (Mapped_of_all m slot 8 (λ a l u. ready.array a (omega arith) (omega arith))) in
      let read : load64 arg m ≡ ok null m =
        let e : arg ≡ arg + 8 * 0 = omega arith in rw e ready.end in
      let here : argv + 8 * (i + 0) ≡ slot = omega arith in
      record {
        mem = put64 m slot 0;
        returns = ground (arith, read, stored, r);
        strings = tt;
        end = rw here (load64-put64 m slot 0 (omega arith));
        same = λ a o o'. SameOutside-put64 m slot 0 a (omega arith);
      }

  module _ (m : Memory) (i arg bufp : ℕ) (w : List ℕ) (ws : List (List ℕ))
      (ready : Ready m i arg bufp (w ∷ ws)) where
    open ready use {zeros, array, room, fits, from, at, stop}

    abbrev slot : Ptr
    slot = argv + 8 * i

    -- After the copy of the string at `t` to `m1` and the store of the pointer to it.
    record One (t : Ptr) (m1 : Memory) : Type 0 where
      read : load64 arg m ≡ ok t m
      text : CString m t w
      low : lo ≤ t
      high : t + length w ≤ hi
      copied : strcpy chars bufp t m ≡ ok bufp m1
      held : Holds m1 bufp w
      same1 : SameOutside bufp (length w) m m1

    first : (t : Ptr) × (m1 : Memory) × One t m1
    first =
        let ((t, e, s, l, u), hs) = ready.strings in
        let (m1, run, held, same, nul) =
          strcpy_lem chars {m = m} bufp t w (omega arith) s
            (Mapped_of_all m bufp (length w) (λ a l u. (0, zeros a l (omega arith))))
            (omega arith) in
        (
          t,
          m1,
          record { read = e; text = s; low = l; high = u; copied = run; held = held; same1 = same },
        )

    module _ (t : Ptr) (m1 : Memory) (o : One t m1) where
      abbrev m2 : Memory
      m2 = put64 m1 slot bufp

      array1 : AllMapped m1 argv (8 * cap)
      array1 a l u = let (b, h) = array a l u in (b, o.same1 a (omega arith) ∙ h)

      changed :
          (a : Ptr) → (a < bufp) ⊎ (bufp + length w ≤ a) → (a < slot) ⊎ (slot + 8 ≤ a) → m2 a ≡ m a
      changed a x y = SameOutside-put64 m1 slot bufp a y ∙ o.same1 a x

      next : Ready m2 (i + 1) (arg + 8) (bufp + length w + 1) ws
      next =
          let ((t', e, s, l, u), hs) = ready.strings in
          let z : arg + 8 * length (w ∷ ws) ≡ arg + 8 + 8 * length ws = omega arith in
          record {
            strings =
                Strings-frame lo hi m m2 (arg + 8) ws
                  (λ b x y. changed b (omega arith) (omega arith))
                  (λ b x y. changed b (omega arith) (omega arith)) hs;
            end =
                load64-frame m m2 (arg + 8 + 8 * length ws) null
                  (λ b x y. changed b (omega arith) (omega arith)) (rw z at ready.end);
            zeros = λ a x y. changed a (omega arith) (omega arith) ∙ zeros a (omega arith) y;
            array = AllMapped-put64 m1 slot bufp argv (8 * cap) array1;
            room = omega arith;
            fits = omega arith;
            from = omega arith;
            at = omega arith;
            stop = omega arith;
          }

      loop :
          (k : ℕ) {r : Run Memory ℤ}
          → copy_args chars buf
              (pos (top - buf))
              argv
              (pos cap)
              k
              (arg + 8)
              (i + 1)
              (bufp + length w + 1)
              m2
            ≡ r
          → copy_args chars buf (pos (top - buf)) argv (pos cap) (suc k) arg i bufp m ≡ r
      unfolding copy_args ◌+ℤ◌ ◌-ℤ◌
      loop k e =
          let len = strlen_lem chars t w (omega (arith, o.low, o.high)) o.text in
          let stored =
            store64-put64 m1 slot bufp
              (Mapped_of_all m1 slot 8 (λ a l u. array1 a (omega arith) (omega arith))) in
          let int_len = to_int-small (length w) (omega (arith, size, fits, from)) in
          ground (arith, o.read, o.low, above, len, int_len, o.copied, stored, fits, from, room, e)

      grown :
          {r : Run Memory ℤ}
          → Copied m2 (i + 1) (bufp + length w + 1) ws r
          → Copied m i bufp (w ∷ ws) r
      grown {r} c =
          let z : argv + 8 * (i + 1) ≡ slot + 8 = omega arith in
          let n : i + 1 + length ws ≡ i + length (w ∷ ws) = omega arith in
          let kept : (a : Ptr)
              → (a < bufp + length w + 1) ⊎ (top ≤ a)
              → (a < argv + 8 * (i + 1)) ⊎ (argv + 8 * cap ≤ a)
              → c.mem a ≡ m2 a =
            c.same in
          record {
            mem = c.mem;
            returns = rw n at c.returns;
            strings = (
              (
                bufp,
                load64-frame m2 c.mem slot bufp (λ a l u. kept a (omega arith) (omega arith))
                    (load64-put64 m1 slot bufp (omega arith)),
                CString-copied m c.mem bufp t w o.text
                    (Holds-frame bufp w
                      (λ a l u.
                        kept a (omega arith) (omega arith)
                        ∙ SameOutside-put64 m1 slot bufp a (omega arith))
                      o.held)
                    (kept (bufp + length w) (omega arith) (omega arith)
                      ∙ changed (bufp + length w) (omega arith) (omega arith)
                      ∙ zeros (bufp + length w) (omega arith) (omega arith)),
                from,
                omega arith,
              ),
              rw z at c.strings,
            );
            end = rw n at c.end;
            same =
                λ a x y. kept a (omega arith) (omega arith) ∙ changed a (omega arith) (omega arith);
          }

  copy_args-Copied :
      (k : ℕ) (m : Memory) (i arg bufp : ℕ) (ws : List (List ℕ))
      → Ready m i arg bufp ws
      → length ws < k
      → Copied m i bufp ws (copy_args chars buf (pos (top - buf)) argv (pos cap) k arg i bufp m)
  copy_args-Copied zero m i arg bufp ws ready fuel = absurd (omega arith)
  copy_args-Copied (suc k) m i arg bufp [] ready fuel = Copied-end k m i arg bufp ready
  copy_args-Copied (suc k) m i arg bufp (w ∷ ws) ready fuel =
      let (t, m1, o) = first m i arg bufp w ws ready in
      let rest =
        copy_args-Copied k _ (i + 1) (arg + 8) (bufp + length w + 1) ws
          (next m i arg bufp w ws ready t m1 o) (omega arith) in
      rw (loop m i arg bufp w ws ready t m1 o k refl) (grown m i arg bufp w ws ready t m1 o rest)

  -- With a zeroed buffer that the strings and their NULs fit, fewer arguments than `argv` has
  -- entries, and more fuel than arguments: `sys_getargv` returns their number. `argv` then has
  -- pointers to the arguments in order, each a string in the buffer, and NULL behind them, and
  -- nothing outside of the buffer and `argv` has changed.
  pub sys_getargv_lem :
      (k : ℕ) (m : Memory) (ws : List (List ℕ))
      → Ready m 0 args buf ws
      → length ws < k
      → (m' : Memory) × (sys_getargv chars k args buf (pos (top - buf)) argv (pos cap) m
          ≡ ok (pos (length ws)) m')
        × Strings buf top m' argv ws
        × (load64 (argv + 8 * length ws) m' ≡ ok null m')
        × ((a : Ptr) → (a < buf) ⊎ (top ≤ a) → (a < argv) ⊎ (argv + 8 * cap ≤ a) → m' a ≡ m a)
  unfolding sys_getargv
  sys_getargv_lem k m ws ready fuel =
      let c = copy_args-Copied k m 0 args buf ws ready fuel in
      let z : argv + 8 * 0 ≡ argv = omega arith in
      let n : 0 + length ws ≡ length ws = omega arith in
      (
        c.mem,
        rw n at c.returns,
        rw z at c.strings,
        rw n at c.end,
        λ a x y. c.same a x (omega arith),
      )
