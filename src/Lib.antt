-- ===== src/Lib.antt =====
-- eduos: a small teaching kernel that runs as a Linux process, its host HAL, and its libc.
--
-- The program. hosthal/init.c reads an archive of programs and maps an arena of memory; kernel/init.c
-- starts the first process. A process asks for the kernel by `int $0x81`, which faults; the signal
-- handler in hosthal/exn.c looks up the handler of the exception in the table of kernel/exn.c, and
-- `syscall_hnd` there calls kernel/syscall.c, whose table leads to the functions of kernel/ksys.c:
-- `sys_run` takes a `struct proc` from the pool of kernel/pool.c, finds the program in the cpio
-- archive, loads its ELF segment and allocates its stack from a mark allocator, saves the caller's
-- registers (hosthal/ctx.c) and makes the new process current; `sys_exit` gives all of that back and
-- goes on with the caller. libc/string.c serves the kernel and the programs alike.
--
-- The files.
--   Machine, Machine.Memory: runs of C code with their outcomes (a result, a fault, a halt, too
--     little fuel), byte-addressed memory, and what stands in it.
--   LibC: libc/string.c. Scan reads (strlen, strcmp, strchr, strspn, strcspn), Copy writes (memset,
--     memcpy, strcpy) and compares (memcmp), Token is strtok_r.
--     LibC.Format is libc/stdio.c, and LibC.Decimal the conversion `d` of its `vsnprintf`.
--   Kernel.Pool: kernel/pool.c, with the interface Kernel.Pool.Api that the processes use.
--   Kernel.Align, Kernel.Print: kernel/util.h and kernel/util.c. Kernel.Init, Kernel.Start:
--     kernel/init.c. Kernel.Exn: kernel/exn.c.
--   Kernel.Alloc, Kernel.Cpio, Kernel.Elf, Kernel.Process, Kernel.Args: kernel/ksys.c, in the order
--     of that file. Kernel.Space is the state that the loader works on, and Process.Kernel the whole.
--   Kernel.PtrStack: the allocator and `load` on the HEAD side of the unresolved merge in
--     kernel/ksys.c. The callers in the file fit the side pr/3, which is modelled elsewhere.
--   Kernel.Syscall: kernel/syscall.c, hosthal/dbg.c and sys_read and sys_write of kernel/ksys.c.
--   Hal.Context: hosthal/ctx.c. Hal.Trap: `syscall_hnd` of hosthal/exn.c.
--   Hal.Vm: the table of the host's mappings, `host_vm_init` of hosthal/exn.c. Hal.Protect: its
--     `host_vm_prot` and `sighnd`, Hal.Signals its `exn_init`. Hal.Main: hosthal/init.c.
--   Hal.Syscalls: the stubs of sysroot/include/kernel/syscall.h, down to the trap.
--   System: the whole at work. Its steps are what a process does by itself and the traps that the
--     kernel handles; the states that are reached nest the processes as their `prev` links do.
--     System.Boot follows `main` to the first process, System.Launch a trap for `run` to the entry of
--     the program.
--   Apps.Shell: apps/shell.c. Apps.Main: libc/_main.c, apps/echo.c and apps/echocode.c, with
--     echo as a whole in Apps.Main.Program. Apps.Sigtest: apps/sigtest.c. LibC.Stdlib: libc/stdlib.c.
--   Tests: a small machine with a program in its archive, and runs on it.
-- The functions keep their names. A static variable or an object behind a pointer is a field of the
-- state; what a function returns through a pointer is part of its result.
--
-- Numbers. Addresses and sizes are natural numbers; a pointer does not wrap. Where the code adds
-- 64-bit values of the file or converts to `int`, the wrap-around is written out. A `char` is its
-- unsigned byte in memory, and `char_value` the signed integer that it is promoted to. The `struct
-- proc` blocks are typed; the links that the free list keeps in the free ones are part of the free
-- list.
--
-- Fuel. A loop that ends by what it reads takes the number of its rounds: for strings one more than
-- their bytes, for the archive one more than its entries. The theorems say how much is enough and
-- that the run then ends in a result; `abort` runs out of any fuel, and so does `host_vm_init` where no
-- call of fscanf finds the end of the file. Loops over a size recur on it.
--
-- Not modelled: the assembler trampoline, and what the host's process prints by perror and fprintf.
-- kernel/third-party/queue.h is third-party: its list macros are a parameter with their laws,
-- Kernel.Pool.Slist. The host's read and fwrite are a parameter, Kernel.Syscall.Console; its mprotect
-- is Hal.Protect.Mprotect and its sigaction Hal.Signals.Signals, with the laws of their manuals; the
-- calls of main are Hal.Main.Files, its fscanf of /proc/self/maps is Hal.Vm.Maps, and its strcmp and
-- strstr are arguments. In Apps the system calls of a program are parameters. The message of
-- `host_vm_init` where the table is full is left out, and so are the stubs os_run and os_exit, whose
-- callers do not go on at once; Hal.Syscalls has the stubs of the calls that leave the process current.
pub mod Prelude
pub mod Machine
pub mod LibC
pub mod Kernel
pub mod Hal
pub mod Apps
pub mod System
pub mod Tests
