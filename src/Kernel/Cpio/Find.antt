-- ===== src/Kernel/Cpio/Find.antt =====
-- `find_exe` against the entries of an archive.
use os.Prelude.{
  ℕ, zero, suc, ◌+◌, ◌<◌, ◌≡◌, List, [], ◌∷◌, arith, refl, length, Bool, true, false, ◌&&◌, ◌==◌,
  if◌then◌else◌, Bool_ext, ◌↔◌,
}
use os.Prelude.Int.{ℤ, is_zero}
use os.Machine.{ok}
use os.Machine.Memory.{Ptr, Memory, null}
use os.Machine.Memory.Region.{CString}
use os.Kernel.Cpio.{find_loop, find_exe}
use os.Kernel.Cpio.Archive.{Entry, IsEntry, content_of, even, filesize_of, cpio_next-entry}
use os.Kernel.Init.{Globals}
use os.LibC.Scan.{strcmp}
use os.LibC.Scan.Compare.{strcmp-eq}

-- "TRAILER!!!"
abbrev pub trailer_name : List ℕ
trailer_name = b'T' ∷ b'R' ∷ b'A' ∷ b'I' ∷ b'L' ∷ b'E' ∷ b'R' ∷ b'!' ∷ b'!' ∷ b'!' ∷ []

abbrev pub same_text : List ℕ → List ℕ → Bool
same_text [] [] = true
same_text [] (b ∷ ys) = false
same_text (a ∷ xs) [] = false
same_text (a ∷ xs) (b ∷ ys) = (a == b) && same_text xs ys

same_text_eq : (xs ys : List ℕ) → same_text xs ys ≡ true → xs ≡ ys
same_text_eq [] [] h = refl
same_text_eq [] (b ∷ ys) h = ground arith
same_text_eq (a ∷ xs) [] h = ground arith
same_text_eq (a ∷ xs) (b ∷ ys) h = ground (arith, same_text_eq xs ys)

same_text_self : (xs : List ℕ) → same_text xs xs ≡ true
same_text_self [] = refl
same_text_self (a ∷ xs) = ground (arith, same_text_self xs)

-- A comparison that is 0 exactly on equal texts.
pub is_zero-same_text :
    (d : ℤ) (xs ys : List ℕ) → ((is_zero d ≡ true) ↔ (xs ≡ ys)) → is_zero d ≡ same_text xs ys
is_zero-same_text d xs ys iff =
    Bool_ext (is_zero d) (same_text xs ys) (λ z. rw (← iff.0 z) (same_text_self xs))
      (λ y. iff.1 (same_text_eq xs ys y))

strcmp-same_text :
    (k : ℕ) {m : Memory} (s1 s2 : Ptr) (xs ys : List ℕ)
    → length xs < k
    → CString m s1 xs
    → CString m s2 ys
    → (d : ℤ) × (strcmp k s1 s2 m ≡ ok d m) × (is_zero d ≡ same_text xs ys)
strcmp-same_text k s1 s2 xs ys fuel hx hy =
    let (d, run, iff) = strcmp-eq k s1 s2 xs ys fuel hx hy in
    (d, run, is_zero-same_text d xs ys iff)

-- The header of the first entry with that name, NULL where there is none.
abbrev pub find_entry : List ℕ → List Entry → Ptr
find_entry name [] = null
find_entry name (e ∷ es) = if same_text e.name name then e.header else find_entry name es

-- The entries stand one behind the other from `p` on, and the trailer behind them.
abbrev pub Archive : Memory → (f : ℕ) → Ptr → List Entry → Type 0
Archive m f p [] = CString m (p + 26) trailer_name
Archive m f p (e ∷ es) =
    (p ≡ e.header)
    × IsEntry m e
    × (length e.name < f)
    × (same_text e.name trailer_name ≡ false)
    × Archive m f (content_of e + even (filesize_of e)) es

module _ (m : Memory) (trailer name : Ptr) (f : ℕ) (text : List ℕ) (long : 10 < f)
    (ht : CString m trailer trailer_name) (hn : CString m name text) where
  find_loop-entry :
      (k : ℕ) (p : Ptr) (es : List Entry)
      → length es < k
      → Archive m f p es
      → find_loop trailer name f k p m ≡ ok (find_entry text es) m
  unfolding find_loop
  find_loop-entry zero p es fuel h = absurd (omega arith)
  find_loop-entry (suc k) p [] fuel h =
      let (d, run, z) =
        strcmp-same_text f {m = m} (p + 26) trailer trailer_name trailer_name long h ht in
      ground arith
  find_loop-entry (suc k) p (e ∷ es) fuel (at, v, short, ne, hs) =
      let (d, run, z) =
        strcmp-same_text f {m = m} (e.header + 26) trailer e.name trailer_name short v.name ht in
      let (d', run', z') =
        strcmp-same_text f {m = m} (e.header + 26) name e.name text short v.name hn in
      ground (
        arith,
        cpio_next-entry v,
        find_loop-entry k (content_of e + even (filesize_of e)) es (omega arith) hs,
      )

-- In an archive whose names are shorter than the fuel `f`, with more fuel than entries, `find_exe`
-- returns the header of the first entry whose name is `text`, or NULL where there is none, and
-- changes nothing. The trailer's name is not looked for.
pub find_exe-entry :
    (m : Memory) (g : Globals) (trailer name : Ptr) (f k : ℕ) (text : List ℕ) (es : List Entry)
    → 10 < f
    → length es < k
    → CString m trailer trailer_name
    → CString m name text
    → Archive m f g.rootfs_cpio es
    → find_exe trailer f k g name m ≡ ok (find_entry text es) m
unfolding find_exe
find_exe-entry m g trailer name f k text es long fuel ht hn h =
    find_loop-entry m trailer name f text long ht hn k g.rootfs_cpio es fuel h
