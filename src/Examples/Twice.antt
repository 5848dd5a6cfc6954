-- ===== src/Examples/Twice.antt =====
-- A fork, from registers to registers, at concrete data.
use a_simple_microkernel.Prelude.{
  ℕ, ◌+◌, ◌-◌, ◌≡◌, ◌≢◌, ◌<◌, refl, pos, negsuc, some, List, [], arith,
}
use a_simple_microkernel.Store.{load32, store32}
use a_simple_microkernel.Store.Laws.{Apart}
use a_simple_microkernel.MemManager.{get_base, get_limit, bump}
use a_simple_microkernel.Process.{store_fields}
use a_simple_microkernel.ProcessManager.{ProcessManager, set_slot}
use a_simple_microkernel.ProcessManager.Table.{IsValid}
use a_simple_microkernel.Lifecycle.{get_current_process}
use a_simple_microkernel.Lifecycle.Fork.{Placed}
use a_simple_microkernel.Lifecycle.Child.{CanFork}
use a_simple_microkernel.Interrupts.{World}
use a_simple_microkernel.Kernel.{Kernel}
use a_simple_microkernel.Kernel.Forks.{HasStack, size, with_stack, stack}
use a_simple_microkernel.Boot.{handlers}
use a_simple_microkernel.Boot.Run.{handlers-Connected}
use a_simple_microkernel.Machine.{Machine}
use a_simple_microkernel.Machine.Reach.{table}
use a_simple_microkernel.Stub
use a_simple_microkernel.Stub.{Registers, save, request}
use a_simple_microkernel.Stub.Fork.{Twice, saved, fork-Twice}
use a_simple_microkernel.Stub.Frames.{Fits}
use a_simple_microkernel.Examples.Scheduling
use a_simple_microkernel.Examples.Typing.{keyboard}

-- The registers of process 0, whose stack ends at 8000 and has 4096 bytes.
abbrev registers : Registers
registers = record {
  eax = 1;
  ebx = 2;
  ecx = 3;
  edx = 4;
  esi = 5;
  edi = 6;
  ebp = 7990;
  ds = 0x10;
  eip = 0x104000;
  cs = 0x18;
  eflags = 0x202;
  esp = 7948;
}

abbrev forker : World (Machine (List ℕ))
forker = record {
  objects = record {
    kernel = record {
      process_manager = Scheduling.table;
      ss_manager = record { segment_sl = 32; last_p = 2097152; free_list = 0 };
    };
    mouse = record { buffer = λ i. 0; offset = 0; buttons = 0; x = 40; y = 12 };
    input = record { in_buffer = λ i. 0; buf_index = negsuc 0; ready = pos 0 };
    devices = [];
  };
  mem = store32 (store32 Scheduling.table.mem 1004 8000) 1008 4096;
  screen = Scheduling.table.screen;
  events = [];
}

forker-current : get_current_process (table forker) ≡ some ((table forker).slots 0)
unfolding get_current_process set_slot
forker-current = refl

forking-Fits : Fits (record registers { eax = 2; ecx = 0x104010 })
forking-Fits = record {
  eax = omega arith;
  ebx = omega arith;
  ecx = omega arith;
  edx = omega arith;
  esi = omega arith;
  edi = omega arith;
  ebp = omega arith;
  ds = omega arith;
  eip = omega arith;
  cs = omega arith;
  eflags = omega arith;
  esp = omega arith;
  room = omega arith;
}

abbrev kernel : Kernel
kernel = saved keyboard 0 handlers handlers-Connected 0x104010 0 registers forker

size_four_thousand : size kernel 0 ≡ 4096
unfolding save store_fields load32 store32 set_slot
size_four_thousand = refl

abbrev granted : ProcessManager
granted = with_stack kernel 0

granted_words :
    (load32 granted.mem 1004 ≡ 8000) × (load32 granted.mem 1020 ≡ 0) × (load32 granted.mem 2020 ≡ 1)
unfolding bump get_limit save store_fields load32 store32 set_slot
granted_words = (refl, refl, refl)

granted-IsValid : IsValid granted
unfolding set_slot
granted-IsValid = record {
  index = omega arith;
  occupied = omega arith;
  objects = Scheduling.slots-Objects;
  sole = λ i lt occ run. ground (arith, granted_words.1, granted_words.2);
}

top_word : load32 granted.mem (granted.slots 0 + 4) ≡ 8000
unfolding set_slot
top_word = granted_words.0

granted-Placed : Placed 8000 2621449 1000 2101256 7900
granted-Placed = record {
  child_word = omega arith;
  parent_word = omega arith;
  top_word = omega arith;
  deep = omega arith;
  small = omega arith;
  room = omega arith;
  entries = omega arith;
  stack_child = omega arith;
  stack_parent = omega arith;
  stacks = omega arith;
  below_child = omega arith;
  below_parent = omega arith;
}

others-Apart :
    (k : ℕ)
    → k < 256
    → granted.slots k ≢ 0
    → Apart (granted.slots k) 44 2621440 53 × Apart (granted.slots k) 44 2101184 84
unfolding set_slot
others-Apart k lt occ = ground arith

stack_place : stack kernel 0 ≡ 2101256
stack_place = rw size_four_thousand refl

granted-CanFork : CanFork granted 0 2101256 7900
unfolding get_limit set_slot
granted-CanFork = record {
  valid = granted-IsValid;
  counted = Scheduling.table-Counted;
  room = omega arith;
  slot = omega arith;
  occupied = omega arith;
  chunks = unfold get_base get_limit in omega arith;
  never_freed = refl;
  fits = omega arith;
  placed = rw granted_words.0 granted-Placed;
  header_parent = omega arith;
  header_stack = omega (arith, top_word);
  clear = λ k lt occ. let (a, b) = others-Apart k lt occ in (a, rw top_word b);
}

forker-HasStack : HasStack kernel 0 (7948 - 48)
unfolding set_slot get_limit
forker-HasStack = record {
  chunks = unfold get_base get_limit in omega arith;
  never_freed = refl;
  fits = omega (arith, size_four_thousand);
  entry = omega arith;
  frame = omega arith;
  can_fork = rw stack_place granted-CanFork;
}

fork-Twice_example :
    (pid j : ℕ) × (w' : World (Machine (List ℕ))) × Twice keyboard 0 handlers handlers-Connected
      0x104010 0 registers forker
      (Stub.fork (request keyboard 1 handlers 0x80) 0x104010 registers forker)
      pid
      j
      w'
fork-Twice_example =
    fork-Twice keyboard 0 handlers handlers-Connected 0x104010 0 registers forker forking-Fits
      forker-current forker-HasStack
