-- ===== src/Tests/Start.antt =====
-- `exn_init` on the example's mappings, and `main` without its file.
use os.Prelude.{
  ℕ, ◌==◌, ◌||◌, ◌≡◌, ◌≢◌, ◌<◌, Bool, true, false, refl, arith, replicate, none, [], ◌∷◌, ◌++◌,
}
use os.Prelude.Int.{pos, negsuc}
use os.Hal.Protect.{sighnd, vm_prot, in_kernel}
use os.Hal.Signals.{Signals, ExnState, call_handler, sigsegv, exn_init}
use os.Hal.Signals.Init.{AreHandled, exn_init_lem}
use os.Hal.Trap.{syscall_hnd}
use os.Hal.Vm.{Kmmap, host_vm_init}
use os.Kernel.Exn.{exn_do, exn_n_max}
use os.Kernel.Process.{Kernel, current_process}
use os.Machine.{ok, pure, ◌>>◌}
use os.Tests.Host.{strcmp, strstr, maps_lines, text_hole, bss_hole, mprotect, table}
use os.Hal.Main.{Files, Host, main, exited, read_rootfs}
use os.Hal.Main.Exits.{main-exits, with_memory}
use os.Kernel.Start.{StartFrame}
use os.Machine.Memory.{Memory, null}
use os.Machine.Memory.Words.{load64}
use os.Tests.Image.{api, config, globals, kernel}
use os.Tests.System.{console}

pub set_signal-new : (sig : ℕ) (s : ℕ → Bool) → ((sig == sig) || s sig) ≡ true
set_signal-new sig s = ground arith

pub set_signal-kept :
    (sig sig' : ℕ) (s : ℕ → Bool) → s sig' ≡ true → ((sig' == sig) || s sig') ≡ true
set_signal-kept sig sig' s e = ground arith

-- A host that sets every signal.
abbrev pub signals : Signals
signals = record {
  State = ℕ → Bool;
  sigaltstack = λ s. (s, pos 0);
  sigaction = λ sig s. (λ k. (k == sig) || s k, pos 0);
  is_handled = λ s sig. s sig;
  sigaction-is_handled = λ sig s e. set_signal-new sig s;
  sigaction-is_handled_too = set_signal-kept;
}

abbrev pub at_start : ExnState signals
at_start = record {
  kmmap = record { procmaps = [] };
  exndes = replicate 64 (record { hnd = none; arg = 0 });
  host = λ k. false;
}

abbrev mapped : Kmmap
mapped = record {
  procmaps = table.procmaps ++ record { from = 0x600000; sz = 0x1000; prot = 3 } ∷ [];
}

mapped_lem :
    host_vm_init strcmp strstr text_hole bss_hole globals maps_lines at_start.kmmap ≡ ok true mapped
unfolding host_vm_init
mapped_lem = refl

exn_init_lem_example :
    (t : ExnState signals) × (exn_init signals strcmp strstr text_hole bss_hole globals maps_lines
        at_start
      ≡ ok (pos 0) t)
    × (t.kmmap ≡ mapped)
    × AreHandled signals 31 1 t.host
    × ((x : Kernel api × (ℕ → ℕ))
        → sighnd mprotect
            (call_handler api config 4 console)
            (current_process api)
            t.kmmap
            t.exndes
            (pos sigsegv)
            x
          ≡ (vm_prot mprotect (call_handler api config 4 console) (current_process api) true mapped
                >> in_kernel mprotect
                    (call_handler api config 4 console)
                    (current_process api)
                    (syscall_hnd api config 4 console >> pure tt)
                >> vm_prot mprotect
                    (call_handler api config 4 console)
                    (current_process api)
                    false
                    mapped)
              x)
    × ((sig : ℕ) (x : Kernel api)
        → sig < exn_n_max
        → sig ≢ sigsegv
        → exn_do (call_handler api config 4 console) t.exndes (pos sig) x
          ≡ exn_do (call_handler api config 4 console) at_start.exndes (pos sig) x)
exn_init_lem_example =
    exn_init_lem signals strcmp strstr text_hole bss_hole globals maps_lines at_start mapped true
      mprotect api config 4 console refl mapped_lem refl (λ sig s lo hi out. ground arith)

-- A host that has no file.
abbrev no_files : Files
no_files = record {
  stat = λ path. pure none;
  malloc = λ size. pure null;
  open_file = λ path. pure (negsuc 0);
  read_file = λ fd buf size. pure (negsuc 0);
  close_file = λ fd. pure tt;
  mmap = λ size. pure none;
}

abbrev host : Host no_files api signals
host = record { kernel = kernel; exn = at_start }

abbrev frame : StartFrame
frame = record { argv = 0x5000; msg = 0x5100; shell = 0x5200; failed = 0x5210 }

exits_lem :
    main no_files api signals strcmp strstr text_hole bss_hole maps_lines config console 9 9 frame
      (pos 2)
      0x2ff8
      host
    ≡ ok (exited (pos 1)) host
unfolding main read_rootfs load64
exits_lem = refl

main-exits_example :
    (pos 1 ≡ pos 1) × (m : Memory) × (host ≡ with_memory no_files api signals host m)
main-exits_example =
    main-exits no_files api signals strcmp strstr text_hole bss_hole maps_lines config console 9 9
      frame (pos 2) 0x2ff8 (pos 1) host host exits_lem
