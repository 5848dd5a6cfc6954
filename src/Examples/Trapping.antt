-- ===== src/Examples/Trapping.antt =====
-- System calls, from registers to registers, at concrete data.
use a_simple_microkernel.Prelude.{
  ℕ, ◌+◌, ◌-◌, ◌^◌, ◌<◌, ◌≡◌, refl, pos, negsuc, some, List, [], arith,
}
use a_simple_microkernel.Store.{load32, store32}
use a_simple_microkernel.Store.Chain.{since}
use a_simple_microkernel.Interrupts.{World}
use a_simple_microkernel.ProcessManager.{set_slot}
use a_simple_microkernel.Process.{store_fields}
use a_simple_microkernel.Lifecycle.{get_current_process}
use a_simple_microkernel.Boot.{handlers}
use a_simple_microkernel.Boot.Run.{handlers-Connected}
use a_simple_microkernel.Machine.{Machine}
use a_simple_microkernel.Machine.Reach.{table}
use a_simple_microkernel.Process.Receive.{Queue}
use a_simple_microkernel.Stub
use a_simple_microkernel.Stub.{Registers, save, restore, request}
use a_simple_microkernel.Stub.Frames.{Fits, restore-save}
use a_simple_microkernel.Stub.Execve.{Calls, execve-Calls}
use a_simple_microkernel.Stub.Waitpid.{asking, waitpid-none}
use a_simple_microkernel.Examples.Scheduling
use a_simple_microkernel.Examples.Typing.{keyboard}

-- Registers of a process that runs below 9048.
abbrev pub registers : Registers
registers = record {
  eax = 1;
  ebx = 2 ^ 32 - 1;
  ecx = 3;
  edx = 4;
  esi = 5;
  edi = 6;
  ebp = 9100;
  ds = 0x10;
  eip = 0x104000;
  cs = 0x18;
  eflags = 0x202;
  esp = 9048;
}

-- Process 0 of the table, at 1000 and with a stack that ends at 90000, is in execution.
abbrev pub machine : World (Machine (List ℕ))
machine = record {
  objects = record {
    kernel = record {
      process_manager = Scheduling.table;
      ss_manager = Scheduling.table.process_mem_manager;
    };
    mouse = record { buffer = λ i. 0; offset = 0; buttons = 0; x = 40; y = 12 };
    input = record { in_buffer = λ i. 0; buf_index = negsuc 0; ready = pos 0 };
    devices = [];
  };
  mem = store32 (λ p. 0) 1004 90000;
  screen = Scheduling.table.screen;
  events = [];
}

-- The registers fit whatever the arguments of a call are. The frame is at 9000.
pub call-Fits :
    (a b c : ℕ)
    → a < 2 ^ 32
    → b < 2 ^ 32
    → c < 2 ^ 32
    → Fits (record registers { eax = a; ebx = b; ecx = c })
call-Fits a b c la lb lc = record {
  eax = la;
  ebx = lb;
  ecx = lc;
  edx = omega arith;
  esi = omega arith;
  edi = omega arith;
  ebp = omega arith;
  ds = omega arith;
  eip = omega arith;
  cs = omega arith;
  eflags = omega arith;
  esp = omega arith;
  room = omega arith;
}

restore-save_example :
    restore (save registers machine.mem).1 (save registers machine.mem).0 ≡ registers
restore-save_example =
    restore-save registers machine.mem
      (call-Fits 1 (2 ^ 32 - 1) 3 (omega arith) (omega arith) (omega arith))

machine-current : get_current_process (table machine) ≡ some 1000
unfolding get_current_process set_slot
machine-current = refl

stack_top : load32 machine.mem 1004 ≡ 90000
unfolding load32 store32
stack_top = refl

execve-Calls_example :
    (r' : Registers) × (w' : World (Machine (List ℕ))) × (Stub.execve
        (request keyboard 3 handlers 0x80)
        0x200
        0x300
        registers
        machine
      ≡ some (r', w'))
    × Calls w'.mem (load32 machine.mem 1004) 0x200 0x300 r'
execve-Calls_example =
    execve-Calls keyboard 3 handlers handlers-Connected 0x200 0x300 registers machine 1000
      (call-Fits 11 0x200 0x300 (omega arith) (omega arith) (omega arith)) machine-current
      (omega (arith, stack_top)) (omega (arith, stack_top)) (omega arith)

no_messages : Queue (save (asking 65535 3 registers) machine.mem).1 1000 []
unfolding save store_fields load32 store32
no_messages = (refl, omega arith, omega arith)

waitpid-none_example :
    let m1 = (save (asking 65535 3 registers) machine.mem).1 in
    let m' = store32 m1 ((save (asking 65535 3 registers) machine.mem).0 + 12) (2 ^ 32 - 1) in
    (w' : World (Machine (List ℕ))) × (Stub.waitpid
        (request keyboard 3 handlers 0x80)
        65535
        3
        registers
        machine
      ≡ some (65535, record (asking 65535 3 registers) { edx = 2 ^ 32 - 1 }, w'))
    × (w'.mem ≡ m')
    × (table w' ≡ record (table machine) { mem = m'; screen = w'.screen })
waitpid-none_example =
    waitpid-none keyboard 3 handlers handlers-Connected 65535 3 registers machine 1000
      (call-Fits 7 65535 3 (omega arith) (omega arith) (omega arith)) machine-current [] no_messages
      (omega arith) (unfold since in refl)
