-- ===== src/Kernel/Args/Refuses.antt =====
-- `sys_getargv` where the buffers of its caller are too small.
use os.Prelude.{
  ◌^◌, ℕ, zero, suc, ◌+◌, ◌-◌, ◌*◌, ◌≤◌, ◌<◌, ◌≡◌, ◌⊎◌, List, [], ◌∷◌, length, arith, refl, ◌∙◌,
  Bool-cases, inl, inr, ltb,
}
use os.Prelude.Int.{ℤ, pos, negsuc, ◌+ℤ◌, ◌-ℤ◌, to_int-small}
use os.Kernel.Args.{copy_args, end_args, sys_getargv}
use os.Kernel.Args.Copies.{Layout, total}
use os.LibC.Copy.{strcpy}
use os.LibC.Copy.Move.{strcpy_lem}
use os.LibC.Scan.Length.{strlen_lem}
use os.Machine.{Run, ok}
use os.Machine.Memory.{Ptr, null, Memory}
use os.Machine.Memory.Frame.{load64-frame}
use os.Machine.Memory.Region.{CString, SameOutside}
use os.Machine.Memory.Store.{
  AllMapped, Mapped_of_all, AllMapped-put64, put64, store64-put64, SameOutside-put64,
}
use os.Machine.Memory.Strings.{Strings, Strings-frame}
use os.Machine.Memory.Words.{load64}

-- The strings of the arguments together take less than 2^31 bytes. The caller's buffers are those of
-- `Layout`, with one entry more behind the `cap` entries of `argv`: the loop may write to it before
-- it refuses.
module _ (chars buf top argv cap args count lo hi : ℕ)
    (layout : Layout chars buf top argv (cap + 1) args count lo hi) (ordered : buf ≤ top)
    (ints : hi < lo + 2 ^ 31) where
  open layout use {above, short, small, buf_argv, buf_args, buf_text, argv_args, argv_text}

  -- There are not fewer arguments than entries, or the strings, each with a NUL behind it but the
  -- last, are longer than the room.
  abbrev pub TooMuch : (i bufp : ℕ) → List (List ℕ) → Type 0
  TooMuch i bufp ws = (cap ≤ i + length ws) ⊎ (top + 1 < bufp + total ws)

  -- Before argument `i`, which is to be copied to `bufp`.
  pub record Left (m : Memory) (i arg bufp : ℕ) (ws : List (List ℕ)) : Type 0 where
    pub strings : Strings lo hi m arg ws
    pub end : load64 (arg + 8 * length ws) m ≡ ok null m
    pub buffer : AllMapped m bufp (top - bufp)
    pub array : AllMapped m argv (8 * (cap + 1))
    pub entries : i ≤ cap + 1
    pub from : buf ≤ bufp
    pub within : bufp ≤ top + 1
    pub at : args ≤ arg
    pub stop : arg + 8 * length ws + 8 ≤ args + 8 * count
    pub too_much : TooMuch i bufp ws

  -- The result is -1, and only the buffers have changed.
  pub record Refused (m : Memory) (r : Run Memory ℤ) : Type 0 where
    pub mem : Memory
    pub returns : r ≡ ok (negsuc 0) mem
    pub same :
        (a : Ptr) → (a < buf) ⊎ (top ≤ a) → (a < argv) ⊎ (argv + 8 * (cap + 1) ≤ a) → mem a ≡ m a

  abbrev copies : (k arg i bufp : ℕ) → Memory → Run Memory ℤ
  copies k arg i bufp = copy_args chars buf (pos (top - buf)) argv (pos cap) k arg i bufp

  at_end :
      (k : ℕ) (m : Memory) (i arg bufp : ℕ)
      → Left m i arg bufp []
      → Refused m (copies (suc k) arg i bufp m)
  unfolding copy_args end_args
  at_end k m i arg bufp left =
      let read : load64 arg m ≡ ok null m =
        let e : arg ≡ arg + 8 * 0 = omega arith in rw e left.end in
      record {
        mem = m;
        returns = ground (arith, read, left.too_much, left.within);
        same = λ a x y. refl;
      }

  module _ (k : ℕ) (m : Memory) (i arg bufp t : ℕ) (w : List ℕ) (ws : List (List ℕ))
      (left : Left m i arg bufp (w ∷ ws)) (read : load64 arg m ≡ ok t m) (text : CString m t w)
      (low : lo ≤ t) (high : t + length w ≤ hi) where
    open left use {buffer, array, from, within, at, stop, too_much}

    no_entry_left : cap < i → Refused m (copies (suc k) arg i bufp m)
    unfolding copy_args
    no_entry_left full = record {
      mem = m;
      returns = ground (arith, read, low, above, full);
      same = λ a x y. refl;
    }

    no_room_left : i ≤ cap → top < bufp + length w → Refused m (copies (suc k) arg i bufp m)
    unfolding copy_args ◌+ℤ◌ ◌-ℤ◌
    no_room_left entry full =
        let len = strlen_lem chars t w (omega (arith, short)) text in
        let int_len = to_int-small (length w) (omega (arith, ints)) in
        record {
          mem = m;
          returns = ground (arith, read, low, above, entry, len, int_len, full, from, ordered);
          same = λ a x y. refl;
        }

    module _ (entry : i ≤ cap) (room : bufp + length w ≤ top) where
      abbrev slot : Ptr
      slot = argv + 8 * i

      record One (m1 : Memory) : Type 0 where
        copied : strcpy chars bufp t m ≡ ok bufp m1
        same1 : SameOutside bufp (length w) m m1

      one : (m1 : Memory) × One m1
      one =
          let (m1, run, held, same, nul) =
            strcpy_lem chars {m = m} bufp t w (omega (arith, short)) text
              (Mapped_of_all m bufp (length w) (λ a l u. buffer a l (omega arith)))
              (omega (arith, buf_text)) in
          (m1, record { copied = run; same1 = same })

      module _ (m1 : Memory) (o : One m1) where
        abbrev m2 : Memory
        m2 = put64 m1 slot bufp

        array1 : AllMapped m1 argv (8 * (cap + 1))
        array1 a l u = let (b, h) = array a l u in (b, o.same1 a (omega (arith, buf_argv)) ∙ h)

        changed :
            (a : Ptr)
            → (a < bufp) ⊎ (bufp + length w ≤ a)
            → (a < slot) ⊎ (slot + 8 ≤ a)
            → m2 a ≡ m a
        changed a x y = SameOutside-put64 m1 slot bufp a y ∙ o.same1 a x

        next : Left m2 (i + 1) (arg + 8) (bufp + length w + 1) ws
        next =
            let z : arg + 8 * length (w ∷ ws) ≡ arg + 8 + 8 * length ws = omega arith in
            record {
              strings =
                  Strings-frame lo hi m m2 (arg + 8) ws
                    (λ b x y. changed b (omega (arith, buf_text)) (omega (arith, argv_text)))
                    (λ b x y. changed b (omega (arith, buf_args)) (omega (arith, argv_args)))
                    left.strings.1;
              end =
                  load64-frame m m2 (arg + 8 + 8 * length ws) null
                    (λ b x y. changed b (omega (arith, buf_args)) (omega (arith, argv_args)))
                    (rw z at left.end);
              buffer = λ a x y.
                  let (b, h) = buffer a (omega arith) (omega arith) in
                  (b, changed a (omega arith) (omega (arith, buf_argv)) ∙ h);
              array = AllMapped-put64 m1 slot bufp argv (8 * (cap + 1)) array1;
              entries = omega arith;
              from = omega arith;
              within = omega arith;
              at = omega arith;
              stop = omega arith;
              too_much = omega (arith, too_much);
            }

        loop : copies (suc k) arg i bufp m ≡ copies k (arg + 8) (i + 1) (bufp + length w + 1) m2
        unfolding copy_args ◌+ℤ◌ ◌-ℤ◌
        loop =
            let len = strlen_lem chars t w (omega (arith, short)) text in
            let int_len = to_int-small (length w) (omega (arith, ints)) in
            let stored =
              store64-put64 m1 slot bufp
                (Mapped_of_all m1 slot 8 (λ a l u. array1 a (omega arith) (omega arith))) in
            ground
              (arith, read, low, above, len, int_len, o.copied, stored, room, from, entry, ordered)

        grown : {r : Run Memory ℤ} → Refused m2 r → Refused m r
        grown c = record {
          mem = c.mem;
          returns = c.returns;
          same = λ a x y. c.same a x y ∙ changed a (omega arith) (omega arith);
        }

  copy_args-Refused :
      (k : ℕ) (m : Memory) (i arg bufp : ℕ) (ws : List (List ℕ))
      → Left m i arg bufp ws
      → length ws < k
      → Refused m (copies k arg i bufp m)
  copy_args-Refused zero m i arg bufp ws left fuel = absurd (omega arith)
  copy_args-Refused (suc k) m i arg bufp [] left fuel = at_end k m i arg bufp left
  copy_args-Refused (suc k) m i arg bufp (w ∷ ws) left fuel =
      let ((t, read, text, low, high), rest) = left.strings in
      elim (Bool-cases (ltb cap i)) [
        | inl full ↦
            no_entry_left k m i arg bufp t w ws left read text low high (ground (arith, full))
        | inr entry ↦ elim (Bool-cases (ltb top (bufp + length w))) [
          | inl full ↦
              no_room_left k m i arg bufp t w ws left read text low high (ground (arith, entry))
                (ground (arith, full))
          | inr room ↦
              let e : i ≤ cap = ground (arith, entry) in
              let r : bufp + length w ≤ top = ground (arith, room) in
              let (m1, o) = one k m i arg bufp t w ws left read text low high e r in
              let rest =
                copy_args-Refused k _ (i + 1) (arg + 8) (bufp + length w + 1) ws
                  (next k m i arg bufp t w ws left read text low high e r m1 o) (omega arith) in
              rw (loop k m i arg bufp t w ws left read text low high e r m1 o)
                (grown k m i arg bufp t w ws left read text low high e r m1 o rest)
        ]
      ]

  -- Where `argv` has not more entries than there are arguments, or the arguments, each with a NUL
  -- behind it but the last, are longer than the buffer, and with more fuel than arguments, which
  -- stand in at most 2^31 bytes, `sys_getargv` returns -1. It has changed nothing outside of the
  -- buffer, the entries of `argv` and the one behind them.
  pub sys_getargv_refuses :
      (k : ℕ) (m : Memory) (ws : List (List ℕ))
      → Left m 0 args buf ws
      → length ws < k
      → (m' : Memory) × (sys_getargv chars k args buf (pos (top - buf)) argv (pos cap) m
          ≡ ok (negsuc 0) m')
        × ((a : Ptr) → (a < buf) ⊎ (top ≤ a) → (a < argv) ⊎ (argv + 8 * (cap + 1) ≤ a) → m' a ≡ m a)
  unfolding sys_getargv
  sys_getargv_refuses k m ws left fuel =
      let c = copy_args-Refused k m 0 args buf ws left fuel in (c.mem, c.returns, c.same)
