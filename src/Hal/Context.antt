-- ===== src/Hal/Context.antt =====
-- hosthal/ctx.c: the saved registers of a user context. Registers are 64 bits wide.
use os.Prelude.{ℕ, ◌+◌, ◌-◌, ◌%◌, ◌^◌}
use os.Machine.{pure, ◌>>=◌, ◌>>◌}
use os.Machine.Memory.{Ptr, Prog}
use os.Machine.Memory.Words.{store64}

-- `struct context`, as the register set that it holds: those that are named in the code, and the
-- others by number.
pub record Context : Type 0 where
  pub rax : ℕ
  pub rbx : ℕ
  pub rcx : ℕ
  pub rdx : ℕ
  pub rsi : ℕ
  pub rdi : ℕ
  pub rsp : ℕ
  pub rbp : ℕ
  pub rip : ℕ
  pub others : ℕ → ℕ

-- `a - b` in a register.
abbrev pub sub64 : ℕ → ℕ → ℕ
sub64 a b = (a + 2 ^ 64 - b) % 2 ^ 64

unfoldable pub ctx_push : Context → (val : ℕ) → Prog Context
ctx_push ctx val = do store64 (sub64 ctx.rsp 8) val; pure (record ctx { rsp = sub64 ctx.rsp 8 })

-- `struct context_call_save`
pub record CallSave : Type 0 where
  pub calltraget : ℕ
  pub spbeforearg : ℕ

-- `tramptramp` is the address of the assembler routine.
unfoldable pub ctx_call_setup :
    (tramptramp : Ptr) → Context → (tramp : Ptr) → Prog (Context × CallSave)
unfolding ctx_push
ctx_call_setup tramptramp ctx tramp = do
  ctx ← ctx_push ctx ctx.rip
  pure (record ctx { rip = tramptramp }, record { calltraget = tramp; spbeforearg = ctx.rsp })

unfoldable pub ctx_call_end : Context → CallSave → Prog Context
unfolding ctx_push
ctx_call_end ctx save = do ctx ← ctx_push ctx save.spbeforearg; ctx_push ctx save.calltraget

-- The new context and the saved one.
unfoldable pub ctx_save : Context → (entry stack : Ptr) → (stacksz : ℕ) → Context × Context
ctx_save ctx entry stack stacksz =
    let sp = sub64 (stack + stacksz) 16 in (record ctx { rsp = sp; rbp = sp; rip = entry }, ctx)

unfoldable pub ctx_restore : (ctx save : Context) → Context
ctx_restore ctx save = save
