-- ===== src/Examples/Scheduling.antt =====
-- The scheduler at concrete data.
use a_simple_microkernel.Prelude.{
  ℕ, ◌≤◌, ◌<◌, ◌≡◌, ◌≢◌, refl, pos, negsuc, false, none, some, arith, inl,
}
use a_simple_microkernel.Store.{Ptr, null, Mem, load32, store32}
use a_simple_microkernel.ProcessManager.{ProcessManager, set_slot, is_ready, schedule, add_proc}
use a_simple_microkernel.ProcessManager.Search.{distance}
use a_simple_microkernel.ProcessManager.Table.{Objects, IsValid, saved}
use a_simple_microkernel.ProcessManager.Schedule.{Switched, schedule-Switched, schedule_hangs}
use a_simple_microkernel.ProcessManager.Add.{count, Counted, Added, add_proc-Added}
use a_simple_microkernel.Store.Laws.{Apart}
use a_simple_microkernel.ProcessManager.Fairness.{rounds, rounds-fair}

-- Process 0 at 1000 is in execution, and process 1 at 2000 is ready with its state at 9000.
abbrev mem : Mem
mem = store32 (store32 (λ p. 0) 2020 1) 2000 9000

abbrev slots : ℕ → Ptr
slots = set_slot (set_slot (λ i. null) 0 1000) 1 2000

abbrev pub table : ProcessManager
table = record {
  slots = slots;
  num_of_processes = 2;
  current_index = pos 0;
  last_pid = 1;
  process_mem_manager = record { segment_sl = 40; last_p = 2621440; free_list = null };
  mem = mem;
  screen = record { video = λ i. 0; row = 0; column = 0; half = 0 };
}

pub slots-Objects : Objects slots
unfolding set_slot
slots-Objects i j hi hj ne oi oj = ground arith

pub table-IsValid : IsValid table
unfolding set_slot load32 store32
table-IsValid = record {
  index = omega arith;
  occupied = omega arith;
  objects = slots-Objects;
  sole = λ i lt occ run. ground arith;
}

pub table-Counted : Counted table
unfolding count set_slot
table-Counted = refl

new_entry-Apart : (i : ℕ) → i < 256 → slots i ≢ null → Apart 3000 44 (slots i) 44
unfolding set_slot
new_entry-Apart i lt occ = ground arith

add_proc-Added_example :
    (pid : ℕ) × (s' : ProcessManager) × (j : ℕ) × (add_proc table 3000 ≡ some (pid, s'))
    × Added table 3000 j pid s'
add_proc-Added_example =
    add_proc-Added table 3000 table-IsValid table-Counted (omega arith) (omega arith)
      new_entry-Apart

schedule-Switched_example :
    (r : Ptr × ProcessManager) × (j : ℕ) × (e : ℕ) × (schedule 256 table 8000 ≡ some r)
    × Switched table (saved mem slots 8000 (pos 0)) j e r
    × IsValid r.1
    × (e ≤ distance 0 1)
schedule-Switched_example =
    schedule-Switched table 8000 table-IsValid 1 (omega arith) (omega arith)
      (inl (unfold is_ready set_slot load32 store32 in refl))

rounds-fair_example :
    (n : ℕ) × (s' : ProcessManager) × (n ≤ 256)
    × (rounds n (λ i. 8000) table ≡ some s')
    × (s'.current_index ≡ pos 1)
rounds-fair_example =
    rounds-fair 1 (omega arith) (λ i. 8000) table table-IsValid (omega arith)
      (unfold is_ready set_slot load32 store32 in refl)

-- The same processes, both blocked and none in execution.
abbrev stuck : ProcessManager
stuck = record table { mem = store32 (store32 (λ p. 0) 2020 2) 1020 2; current_index = negsuc 0 }

stuck-IsValid : IsValid stuck
unfolding set_slot load32 store32
stuck-IsValid = record {
  index = refl;
  occupied = tt;
  objects = slots-Objects;
  sole = λ i lt occ run. ground arith;
}

stuck-none : (k : ℕ) → k < 256 → is_ready stuck.mem slots k ≡ false
unfolding is_ready set_slot load32 store32
stuck-none k lt = ground arith

schedule_hangs_example : schedule 1000 stuck 8000 ≡ none
schedule_hangs_example = schedule_hangs stuck 8000 stuck-IsValid 1000 (omega arith) refl stuck-none
