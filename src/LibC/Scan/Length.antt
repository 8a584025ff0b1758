-- ===== src/LibC/Scan/Length.antt =====
-- `strlen` on a C string.
use os.Prelude.{ℕ, zero, suc, ◌+◌, ◌<◌, ◌≡◌, List, [], ◌∷◌, arith, length}
use os.Machine.{ok}
use os.Machine.Memory.{Ptr, Memory}
use os.Machine.Memory.Region.{CString}
use os.LibC.Scan.{strlen_loop, strlen}

strlen_loop_lem :
    (k : ℕ) {m : Memory} (p : Ptr) (bs : List ℕ)
    → length bs < k
    → CString m p bs
    → strlen_loop k p m ≡ ok (p + length bs) m
unfolding strlen_loop
strlen_loop_lem zero p bs fuel h = absurd (omega arith)
strlen_loop_lem (suc k) p [] fuel h = ground arith
strlen_loop_lem (suc k) p (b ∷ bs) fuel (h, l, u, hs) =
    ground (arith, strlen_loop_lem k (suc p) bs (omega arith) hs)

-- With more fuel than the string has bytes, `strlen` returns their number and changes nothing.
pub strlen_lem :
    (k : ℕ) {m : Memory} (p : Ptr) (bs : List ℕ)
    → length bs < k
    → CString m p bs
    → strlen k p m ≡ ok (length bs) m
unfolding strlen
strlen_lem k p bs fuel h = ground (arith, strlen_loop_lem k p bs fuel h)
