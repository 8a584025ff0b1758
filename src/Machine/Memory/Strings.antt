-- ===== src/Machine/Memory/Strings.antt =====
-- Words in memory: an array of pointers and the strings behind them, and what keeps them there.
use os.Prelude.{
  ℕ, suc, ◌+◌, ◌*◌, ◌≤◌, ◌<◌, ◌≡◌, ◌⊎◌, inl, inr, some, List, [], ◌∷◌, length, arith, refl,
}
use os.Machine.{ok}
use os.Machine.Memory.{Ptr, Memory}
use os.Machine.Memory.Frame.{load64-frame}
use os.Machine.Memory.Region.{CString, CString-frame, Holds}
use os.Machine.Memory.Words.{load64}

-- The pointers from `a` on lead to these strings, in the bytes `lo` to `hi`.
abbrev pub Strings : (lo hi : ℕ) → Memory → (a : Ptr) → List (List ℕ) → Type 0
Strings lo hi m a [] = Unit {0}
Strings lo hi m a (w ∷ ws) =
    ((t : Ptr) × (load64 a m ≡ ok t m) × CString m t w × (lo ≤ t) × (t + length w ≤ hi))
    × Strings lo hi m (a + 8) ws

pub Strings-frame :
    (lo hi : ℕ) (m m' : Memory) (a : Ptr) (ws : List (List ℕ))
    → ((b : Ptr) → lo ≤ b → b ≤ hi → m' b ≡ m b)
    → ((b : Ptr) → a ≤ b → b < a + 8 * length ws → m' b ≡ m b)
    → Strings lo hi m a ws
    → Strings lo hi m' a ws
Strings-frame lo hi m m' a [] text array h = tt
Strings-frame lo hi m m' a (w ∷ ws) text array ((t, e, s, l, u), hs) = (
  (
    t,
    load64-frame m m' a t (λ b x y. array b x (omega arith)) e,
    CString-frame t w (λ b x y. text b (omega arith) (omega arith)) s,
    l,
    u,
  ),
  Strings-frame lo hi m m' (a + 8) ws text (λ b l u. array b (omega arith) (omega arith)) hs,
)

-- `m'` differs from `m` at most in the `n` bytes from `p` on and the `k` bytes from `q` on.
abbrev pub SameOutsideBoth : (p : Ptr) (n : ℕ) (q : Ptr) (k : ℕ) → Memory → Memory → Type 0
SameOutsideBoth p n q k m m' =
    (a : Ptr) → (a < p) ⊎ (p + n ≤ a) → (a < q) ⊎ (q + k ≤ a) → m' a ≡ m a

-- The last byte of a string is its NUL.
pub CString-end : (m : Memory) (p : Ptr) (bs : List ℕ) → CString m p bs → m (p + length bs) ≡ some 0
CString-end m p [] h = let e : p + 0 ≡ p = omega arith in rw e h
CString-end m p (b ∷ bs) (h, l, u, hs) =
    let e : p + suc (length bs) ≡ suc p + length bs = omega arith in
    rw e (CString-end m (suc p) bs hs)

-- Two strings, the second no sooner than the first one's NUL: it begins behind that, unless it is
-- empty.
pub CString-apart :
    (m : Memory) (t p : Ptr) (tok rest : List ℕ)
    → CString m t tok
    → CString m p rest
    → t + length tok ≤ p
    → (rest ≡ []) ⊎ (t + length tok < p)
CString-apart m t p tok [] h k le = inl refl
CString-apart m t p tok (b ∷ rest) h (hb, l, u, hs) le = inr (ground (arith, CString-end m t tok h))

-- Bytes that are copied to where a 0 follows are a string again.
pub CString-copied :
    (m m' : Memory) (p q : Ptr) (bs : List ℕ)
    → CString m q bs
    → Holds m' p bs
    → m' (p + length bs) ≡ some 0
    → CString m' p bs
CString-copied m m' p q [] h c e = let z : p ≡ p + 0 = omega arith in rw z e
CString-copied m m' p q (b ∷ bs) (h, l, u, hs) (c, cs) e =
    let z : suc p + length bs ≡ p + suc (length bs) = omega arith in
    (c, l, u, CString-copied m m' (suc p) (suc q) bs hs cs (rw z e))
