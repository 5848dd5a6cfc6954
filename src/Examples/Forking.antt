-- ===== src/Examples/Forking.antt =====
-- A fork at concrete data.
use a_simple_microkernel.Prelude.{ℕ, ◌≡◌, ◌≢◌, ◌<◌, refl, some, arith}
use a_simple_microkernel.Store.{load32, store32}
use a_simple_microkernel.Store.Laws.{Apart}
use a_simple_microkernel.MemManager.{get_base, get_limit}
use a_simple_microkernel.MemManager.Bump
use a_simple_microkernel.ProcessManager.{ProcessManager, set_slot}
use a_simple_microkernel.ProcessManager.Table.{IsValid}
use a_simple_microkernel.ProcessManager.Add.{count, Counted}
use a_simple_microkernel.Lifecycle.{fork_proc}
use a_simple_microkernel.Lifecycle.Fork.{Placed}
use a_simple_microkernel.Lifecycle.Child.{CanFork}
use a_simple_microkernel.Lifecycle.Forking.{Born, fork_proc-Born}
use a_simple_microkernel.Examples.Scheduling.{table}

-- Process 0 of the table, with a stack that ends at 8000.
abbrev parent : ProcessManager
parent = record table { mem = store32 table.mem 1004 8000 }

stack_top : load32 parent.mem 1004 ≡ 8000
unfolding load32 store32
stack_top = refl

parent-IsValid : IsValid parent
unfolding set_slot load32 store32
parent-IsValid = record {
  index = omega arith;
  occupied = omega arith;
  objects = λ i j hi hj ne oi oj. ground arith;
  sole = λ i lt occ run. ground arith;
}

parent-Counted : Counted parent
unfolding count set_slot
parent-Counted = refl

chunks-IsValid : Bump.IsValid parent.process_mem_manager
unfolding get_base get_limit
chunks-IsValid = omega arith

-- The frame at 7900, and a chunk for the child's stack that ends at 20000.
parent-Placed : Placed (load32 parent.mem 1004) 2621449 1000 20000 7900
parent-Placed = rw stack_top (record {
  child_word = omega arith;
  parent_word = omega arith;
  top_word = omega arith;
  deep = omega arith;
  small = omega arith;
  room = omega arith;
  entries = omega arith;
  stack_child = omega arith;
  stack_parent = omega arith;
  stacks = omega arith;
  below_child = omega arith;
  below_parent = omega arith;
})

others-Apart :
    (k : ℕ)
    → k < 256
    → parent.slots k ≢ 0
    → Apart (parent.slots k) 44 2621440 53 × Apart (parent.slots k) 44 19928 84
unfolding set_slot
others-Apart k lt occ = ground arith

parent-CanFork : CanFork parent 0 20000 7900
unfolding get_limit set_slot
parent-CanFork = record {
  valid = parent-IsValid;
  counted = parent-Counted;
  room = omega arith;
  slot = omega arith;
  occupied = omega arith;
  chunks = chunks-IsValid;
  never_freed = refl;
  fits = omega arith;
  placed = parent-Placed;
  header_parent = omega arith;
  header_stack = omega (arith, stack_top);
  clear = λ k lt occ. let (a, b) = others-Apart k lt occ in (a, rw stack_top b);
}

fork_proc-Born_example :
    (pid j : ℕ) × (s' : ProcessManager) × (fork_proc 1 parent 20000 5000 7900 (parent.slots 0)
      ≡ some (pid, s'))
    × Born parent 0 20000 5000 7900 pid j s'
fork_proc-Born_example = fork_proc-Born parent 0 20000 5000 7900 parent-CanFork (omega arith) 0
