-- ===== src/Tests/Args.antt =====
-- `sys_getargv` of two arguments at 16, "ab" at 64 and "c" at 68, into 8 bytes at 128 and four
-- entries at 160.
use os.Prelude.{
  ℕ, ◌+◌, ◌≡◌, ◌≤◌, ◌<◌, ◌⊎◌, ◌&&◌, inl, inr, refl, some, none, List, [], ◌∷◌, arith, leb, ltb,
  if◌then◌else◌,
}
use os.Prelude.Int.{pos, negsuc}
use os.Kernel.Args.{sys_getargv}
use os.Kernel.Args.Copies.{Layout, Ready, sys_getargv_lem}
use os.Kernel.Args.Refuses.{Left, sys_getargv_refuses}
use os.Machine.{ok}
use os.Machine.Memory.{Memory, Ptr, null}
use os.Machine.Memory.Region.{CString}
use os.Machine.Memory.Strings.{Strings}
use os.Machine.Memory.Words.{load64}
use os.Tests.Image.{place}

abbrev memory : Memory
memory a =
    if leb 128 a && ltb a 192
    then some 0
    else place 16
        (64 ∷ 0 ∷ 0 ∷ 0 ∷ 0 ∷ 0 ∷ 0 ∷ 0 ∷ 68 ∷ 0 ∷ 0 ∷ 0 ∷ 0 ∷ 0 ∷ 0 ∷ 0 ∷ 0 ∷ 0 ∷ 0 ∷ 0 ∷ 0 ∷ 0 ∷ 0
          ∷ 0 ∷ [])
        (place 64 (b'a' ∷ b'b' ∷ 0 ∷ 0 ∷ b'c' ∷ 0 ∷ []) (λ b. none)) a

abbrev strings : List (List ℕ)
strings = (b'a' ∷ b'b' ∷ []) ∷ (b'c' ∷ []) ∷ []

layout : Layout 9 128 136 160 4 16 3 64 70
layout = record {
  above = omega arith;
  short = omega arith;
  small = omega arith;
  size = omega arith;
  buf_argv = inl (omega arith);
  buf_args = inr (omega arith);
  buf_text = inr (omega arith);
  argv_args = inr (omega arith);
  argv_text = inr (omega arith);
}

ab_there : CString memory 64 (b'a' ∷ b'b' ∷ [])
ab_there = ground arith

c_there : CString memory 68 (b'c' ∷ [])
c_there = ground arith

strings_there : Strings 64 70 memory 16 strings
unfolding load64
strings_there = (
  (64, refl, ab_there, omega arith, omega arith),
  ((68, refl, c_there, omega arith, omega arith), tt),
)

end_there : load64 32 memory ≡ ok null memory
unfolding load64
end_there = refl

ready : Ready 9 128 136 160 4 16 3 64 70 layout memory 0 16 128 strings
ready = record {
  strings = strings_there;
  end = end_there;
  zeros = λ a l u. ground arith;
  array = λ a l u. (0, ground arith);
  room = omega arith;
  fits = omega arith;
  from = omega arith;
  at = omega arith;
  stop = omega arith;
}

sys_getargv_lem_example :
    (m' : Memory) × (sys_getargv 9 3 16 128 (pos 8) 160 (pos 4) memory ≡ ok (pos 2) m')
    × Strings 128 136 m' 160 strings
    × (load64 176 m' ≡ ok null m')
    × ((a : Ptr) → (a < 128) ⊎ (136 ≤ a) → (a < 160) ⊎ (192 ≤ a) → m' a ≡ memory a)
sys_getargv_lem_example =
    sys_getargv_lem 9 128 136 160 4 16 3 64 70 layout 3 memory strings ready (omega arith)

-- One entry is not enough.
layout_one : Layout 9 128 136 160 (1 + 1) 16 3 64 70
layout_one = record {
  above = omega arith;
  short = omega arith;
  small = omega arith;
  size = omega arith;
  buf_argv = inl (omega arith);
  buf_args = inr (omega arith);
  buf_text = inr (omega arith);
  argv_args = inr (omega arith);
  argv_text = inr (omega arith);
}

left :
    Left 9 128 136 160 1 16 3 64 70 layout_one (omega arith) (omega arith) memory 0 16 128 strings
left = record {
  strings = strings_there;
  end = end_there;
  buffer = λ a l u. (0, ground arith);
  array = λ a l u. (0, ground arith);
  entries = omega arith;
  from = omega arith;
  within = omega arith;
  at = omega arith;
  stop = omega arith;
  too_much = inl (omega arith);
}

sys_getargv_refuses_example :
    (m' : Memory) × (sys_getargv 9 3 16 128 (pos 8) 160 (pos 1) memory ≡ ok (negsuc 0) m')
    × ((a : Ptr) → (a < 128) ⊎ (136 ≤ a) → (a < 160) ⊎ (176 ≤ a) → m' a ≡ memory a)
sys_getargv_refuses_example =
    sys_getargv_refuses 9 128 136 160 1 16 3 64 70 layout_one (omega arith) (omega arith) 3 memory
      strings left (omega arith)
