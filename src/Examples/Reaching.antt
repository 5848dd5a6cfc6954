-- ===== src/Examples/Reaching.antt =====
-- Interrupts of a machine at concrete data.
use a_simple_microkernel.Prelude.{ℕ, ◌≡◌, refl, pos, negsuc, some, List, [], ◌∷◌, arith, inr}
use a_simple_microkernel.Store.{Ptr, load32, store32}
use a_simple_microkernel.Interrupts.{World}
use a_simple_microkernel.Boot.{handlers}
use a_simple_microkernel.ProcessManager.{set_slot}
use a_simple_microkernel.Machine.{Machine, interrupt}
use a_simple_microkernel.Machine.Live.{Live, Outcome}
use a_simple_microkernel.Machine.Reach.{table, Own, own, here, next, interrupts-Live}
use a_simple_microkernel.Examples.Scheduling
use a_simple_microkernel.Examples.Typing.{keyboard}

-- Process 0 is in execution and process 1 ready, and the tab key waits in the controller.
abbrev machine : World (Machine (List ℕ))
machine = record {
  objects = record {
    kernel = record {
      process_manager = Scheduling.table;
      ss_manager = Scheduling.table.process_mem_manager;
    };
    mouse = record { buffer = λ i. 0; offset = 0; buttons = 0; x = 40; y = 12 };
    input = record { in_buffer = λ i. 0; buf_index = negsuc 0; ready = pos 0 };
    devices = 0x0F ∷ [];
  };
  mem = Scheduling.table.mem;
  screen = Scheduling.table.screen;
  events = [];
}

-- The process in execution writes a word of its own.
abbrev written : World (Machine (List ℕ))
written = record machine { mem = store32 machine.mem 7000 5 }

written-Own : Own machine written
unfolding set_slot load32 store32
written-Own = record { kernel = refl; states = λ k lt occ. ground arith }

machine-Live : Live (table machine)
machine-Live = record {
  valid = Scheduling.table-IsValid;
  some_left = omega arith;
  slot = 0;
  inside = omega arith;
  runs = inr refl;
}

interrupts-Live_example :
    (r : Ptr × World (Machine (List ℕ))) × (interrupt keyboard 256 handlers 0x21 written 8000
      ≡ some r)
    × Live (table r.1)
    × Outcome 8000 (table written) (r.0, table r.1)
interrupts-Live_example =
    interrupts-Live keyboard machine written 0x21 8000 machine-Live (next here (own written-Own))
      (omega arith)
