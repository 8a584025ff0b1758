-- ===== src/Tests/Calls.antt =====
-- `os_getargv` of the first process.
use os.Prelude.{◌≡◌, ◌≢◌, refl, arith}
use os.Prelude.Int.{ℤ, pos}
use os.Hal.Syscalls.{long_word, with_operands, os_getargv}
use os.Hal.Syscalls.Returns.{os_getargv_lem}
use os.Hal.Trap.Exit.{behind}
use os.Kernel.Args.{sys_getargv}
use os.Kernel.Process.{int_word}
use os.Kernel.Syscall.{getargv, syscalls_num}
use os.LibC.Copy.{strcpy}
use os.LibC.Scan.{strlen}
use os.Machine.{Run, ok}
use os.Machine.Memory.{Memory, null}
use os.Machine.Memory.Words.{load64, store64, load16}
use os.Tests.Image.{api, config}
use os.Tests.System.{console, first, begin}

abbrev result : Run Memory ℤ
unfolding sys_getargv load64 strlen strcpy store64
result = sys_getargv config.chars 4 0x3000 0x11800 (pos 128) 0x11900 (pos 16) first.space.memory

abbrev memory_of : Run Memory ℤ → Memory
memory_of (ok r m) = m
memory_of _ = first.space.memory

abbrev left : Memory
left = memory_of result

result_lem :
    sys_getargv config.chars 4
      (first.procs first.curp).argv
      0x11800
      (pos 128)
      0x11900
      (pos 16)
      first.space.memory
    ≡ ok (pos 1) left
unfolding begin result
result_lem = refl

result_instr : load16 first.ctx.rip first.space.memory ≡ ok 0x81cd first.space.memory
unfolding begin load16
result_instr = refl

first-current : first.curp ≢ null
unfolding begin
first-current = omega arith

os_getargv_lem_example :
    os_getargv api config 4 console 0x11800 (pos 128) 0x11900 (pos 16) first
    ≡ ok (pos 1) (record first {
      space = record first.space { memory = left };
      ctx =
          record (behind (
            with_operands
              (syscalls_num getargv)
              0x11800
              (long_word (pos 128))
              0x11900
              (long_word (pos 16))
              0
              first.ctx)) { rax = int_word (pos 1) };
    })
os_getargv_lem_example =
    os_getargv_lem api config 4 console 0x11800 0x11900 (pos 128) (pos 16) (pos 1) first left
      first-current (omega arith) (omega arith) (omega arith) result_instr result_lem
