-- ===== src/Examples/Waiting.antt =====
-- A call of `waitpid` that finds a message, at concrete data.
use a_simple_microkernel.Prelude.{Bool, ℕ, ◌≡◌, refl, some, List, [], ◌∷◌, ◌++◌, arith}
use a_simple_microkernel.Store.{Ptr, Mem, load8, load32, store8, store32}
use a_simple_microkernel.Store.Chain.{Chain, before, since}
use a_simple_microkernel.Process.{matches, store_fields}
use a_simple_microkernel.Process.Receive.{Queue}
use a_simple_microkernel.ProcessManager.{ProcessManager, set_slot}
use a_simple_microkernel.Lifecycle.{get_current_process}
use a_simple_microkernel.Interrupts.{World}
use a_simple_microkernel.Boot.{handlers}
use a_simple_microkernel.Boot.Run.{handlers-Connected}
use a_simple_microkernel.Machine.{Machine}
use a_simple_microkernel.Machine.Reach.{table}
use a_simple_microkernel.Stub
use a_simple_microkernel.Stub.{Registers, save, request}
use a_simple_microkernel.Stub.Waitpid.{Clear, asking, waitpid-found}
use a_simple_microkernel.Examples.Scheduling
use a_simple_microkernel.Examples.Trapping
use a_simple_microkernel.Examples.Trapping.{registers, call-Fits}
use a_simple_microkernel.Examples.Typing.{keyboard}

-- The process at 1000 has a message at 3000, that process 1 is ready, and one at 4000, that process 2
-- is terminated. A free chunk is at 6000.
abbrev queue : Mem
queue =
    store32
      (store32 (store8 (store32 (store8 (store32 (λ p. 0) 3000 1) 3004 1) 4000 3) 4004 2) 3008 4000)
      1036 3000

abbrev manager : ProcessManager
manager =
    let s = Scheduling.table in
    record s {
      process_mem_manager = record { segment_sl = 40; last_p = 2621440; free_list = 6000 };
    }

abbrev waiting : World (Machine (List ℕ))
waiting = record {
  objects = record {
    kernel = record { process_manager = manager; ss_manager = manager.process_mem_manager };
    mouse = Trapping.machine.objects.mouse;
    input = Trapping.machine.objects.input;
    devices = [];
  };
  mem = queue;
  screen = manager.screen;
  events = [];
}

-- The process asks for a terminated process, whichever.
abbrev trapped : Mem
trapped = (save (asking 65535 3 registers) queue).1

waiting-current : get_current_process (table waiting) ≡ some 1000
unfolding get_current_process set_slot
waiting-current = refl

trapped-Queue : Queue trapped 1000 (3000 ∷ 4000 ∷ [])
unfolding save store_fields load32 store32 store8
trapped-Queue = ((refl, omega arith, (refl, omega arith, refl)), omega arith, omega arith)

trapped-chunks : Chain 4 trapped 6000 (6000 ∷ [])
unfolding save store_fields load32 store32 store8
trapped-chunks = (refl, omega arith, refl)

trapped-Clear : Clear 9000 1000 (3000 ∷ 4000 ∷ []) (6000 ∷ [])
trapped-Clear = record {
  objects = omega arith;
  entry = omega arith;
  frame = omega arith;
  head = omega arith;
}

abbrev wanted : Ptr → Bool
wanted = matches trapped 3 65535

waitpid-found_example :
    (w' : World (Machine (List ℕ))) × (Stub.waitpid
        (request keyboard 3 handlers 0x80)
        65535
        3
        registers
        waiting
      ≡ some
          (load8 trapped 4004, record (asking 65535 3 registers) { edx = load8 trapped 4004 }, w'))
    × Chain 8 w'.mem (load32 w'.mem 1036) (before wanted (3000 ∷ 4000 ∷ []) ++ [])
waitpid-found_example =
    waitpid-found keyboard 3 handlers handlers-Connected 65535 3 registers waiting 1000
      (call-Fits 7 65535 3 (omega arith) (omega arith) (omega arith)) waiting-current
      (3000 ∷ 4000 ∷ []) (6000 ∷ []) 4000 [] trapped-Queue trapped-chunks trapped-Clear
      (omega arith) (omega arith)
      (unfold since matches save store_fields load32 load8 store32 store8 in refl)
