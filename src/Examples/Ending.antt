-- ===== src/Examples/Ending.antt =====
-- The end of a child of the init process at concrete data.
use a_simple_microkernel.Prelude.{
  ℕ, ◌+◌, ◌<◌, ◌≡◌, ◌≢◌, refl, pos, some, [], ◌∷◌, arith, ◌⊎◌, subst,
}
use a_simple_microkernel.Store.{Ptr, Mem, load8, load32, store8, store32}
use a_simple_microkernel.MemManager.{get_base, get_limit}
use a_simple_microkernel.ProcessManager.{ProcessManager, set_slot}
use a_simple_microkernel.Lifecycle.{term_proc}
use a_simple_microkernel.Lifecycle.Family.{Family}
use a_simple_microkernel.Lifecycle.Term.{CanEnd, Gone, term_proc-Gone}
use a_simple_microkernel.Kernel.{Kernel, handle_interrupt}
use a_simple_microkernel.Kernel.Exit.{CanExit, Exited, handle_interrupt-Exited}
use a_simple_microkernel.ProcessManager.{is_ready}
use a_simple_microkernel.ProcessManager.Table.{IsValid}
use a_simple_microkernel.Store.{null}
use a_simple_microkernel.Store.Laws.{Apart}
use a_simple_microkernel.Examples.Scheduling.{table}

-- The states of the init process, at 1000, of processes 2 and 3, and the number that calls `exit`.
abbrev waiting : Mem
waiting = store32 (store32 (store32 (store32 (λ p. 0) 1020 1) 3020 2) 4020 2) 9000 1

-- Process 1 at 2000 with its stack at 8000, a child of the init process at 1000, has a child at 3000
-- and a sibling behind it at 4000. It is in execution, and the init process is ready.
abbrev family : Mem
family =
    store8
      (store32
        (store32 (store32 (store32 (store32 waiting 2016 1000) 2028 3000) 1028 2000) 2024 4000) 2004
        8000)
      2012 1

abbrev four : ProcessManager
four = record table {
  slots = set_slot (set_slot table.slots 2 3000) 3 4000;
  num_of_processes = 4;
  current_index = pos 1;
  mem = family;
}

four-slots : (four.slots 0 ≡ 1000) × (four.slots 1 ≡ 2000)
unfolding set_slot
four-slots = (refl, refl)

four-Family : Family family 1000 2000 (3000 ∷ []) [] (4000 ∷ [])
unfolding load32 store32 store8
four-Family = record {
  parent = refl;
  children = (refl, omega arith, refl);
  siblings = (refl, omega arith, (refl, omega arith, refl));
  own = omega arith;
  others = omega arith;
  cross = omega arith;
}

four-number : load8 family (four.slots 1 + 12) ≡ 1
unfolding set_slot load8 store8 store32
four-number = refl

four-others : load8 family (four.slots 0 + 12) ≡ 0
unfolding set_slot load8 store8 store32
four-others = refl

four-first : (j : ℕ) → j < 1 → four.slots j ≢ null → load8 family (four.slots j + 12) ≢ 1
four-first j lt occ e =
    let z : j ≡ 0 = omega arith in
    absurd (omega (arith, four-others, subst (λ k. load8 family (four.slots k + 12) ≡ 1) z e))

four-CanEnd : CanEnd four 1 1 (3000 ∷ []) [] (4000 ∷ [])
unfolding set_slot
four-CanEnd = record {
  slot = omega arith;
  occupied = omega arith;
  number = four-number;
  first = four-first;
  family = four-Family;
  read = unfold load32 store32 store8 in refl;
  chunks = unfold get_base get_limit in omega arith;
  never_freed = refl;
  fits = unfold get_limit in omega arith;
  word = omega arith;
  message_init = omega arith;
  message_children = omega arith;
  message_others = omega arith;
  some_left = omega arith;
  few = omega arith;
}

term_proc-Gone_example :
    (s' : ProcessManager) × (term_proc 4 four 1 ≡ some (load32 family (four.slots 1 + 4), s'))
    × Gone four 1 (3000 ∷ []) [] (4000 ∷ []) s'
term_proc-Gone_example =
    term_proc-Gone 3 four 1 1 (3000 ∷ []) [] (4000 ∷ []) four-CanEnd (omega arith)

four-states : (load32 family 1020 ≡ 1) × (load32 family 3020 ≡ 2) × (load32 family 4020 ≡ 2)
unfolding load32 store32 store8
four-states = (refl, refl, refl)

four-IsValid : IsValid four
unfolding set_slot
four-IsValid = record {
  index = omega arith;
  occupied = omega arith;
  objects = λ i j hi hj ne oi oj. ground arith;
  sole = λ i lt occ run. ground (arith, four-states.0, four-states.1, four-states.2);
}

abbrev ending : Kernel
ending = record {
  process_manager = four;
  ss_manager = record { segment_sl = 32; last_p = 2097152; free_list = 0 };
}

stack_word : load32 family (four.slots 1 + 4) ≡ 8000
unfolding set_slot load32 store32 store8
stack_word = refl

entry_places :
    (j : ℕ)
    → four.slots j ≢ null
    → (four.slots j ≡ 1000) ⊎ (four.slots j ≡ 2000) ⊎ (four.slots j ≡ 3000) ⊎ (four.slots j ≡ 4000)
unfolding set_slot
entry_places j occ = ground arith

entries-Apart :
    (j : ℕ)
    → j < 256
    → four.slots j ≢ null
    → Apart 2621440 21 (four.slots j) 44
      × Apart 8004 4 (four.slots j) 44
      × (((3000 ≡ four.slots j) ⊎ Apart 3000 44 (four.slots j) 44) × Unit {0})
      × (((2000 ≡ four.slots j) ⊎ Apart 2000 44 (four.slots j) 44)
          × (((4000 ≡ four.slots j) ⊎ Apart 4000 44 (four.slots j) 44) × Unit {0}))
entries-Apart j lt occ =
    let place = entry_places j occ in
    (omega arith, omega arith, (omega arith, tt), (omega arith, (omega arith, tt)))

ending-CanExit : CanExit ending 1 (3000 ∷ []) [] (4000 ∷ []) 0
unfolding set_slot
ending-CanExit = record {
  valid = four-IsValid;
  slot = omega arith;
  current = refl;
  ends = rw four-number four-CanEnd;
  occupied = omega arith;
  init = omega arith;
  never_freed = refl;
  clear = λ j lt occ. rw stack_word (entries-Apart j lt occ);
  inside = omega arith;
  other = omega arith;
  ready = unfold is_ready in rw four-states.0 refl;
  more = omega arith;
}

handle_interrupt-Exited_example :
    (r : Ptr × Kernel) × (j : ℕ) × (handle_interrupt 256 ending 9000 ≡ some r) × Exited ending 1 j r
handle_interrupt-Exited_example =
    handle_interrupt-Exited ending 1 (3000 ∷ []) [] (4000 ∷ []) 0 ending-CanExit 9000 (omega arith)
      (unfold load32 store32 store8 in refl)
