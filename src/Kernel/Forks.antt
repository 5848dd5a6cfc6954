-- ===== src/Kernel/Forks.antt =====
-- The system call `fork`.
use a_simple_microkernel.Prelude.{
  ℕ, suc, ◌+◌, ◌-◌, ◌%◌, ◌^◌, ◌≤◌, ◌≡◌, refl, ap, some, arith, subst,
}
use a_simple_microkernel.Store.{Ptr, null, Mem, load8, load32, store32}
use a_simple_microkernel.Store.Laws.{Apart, load32-lt}
use a_simple_microkernel.MemManager.{bump, get_limit}
use a_simple_microkernel.MemManager.Bump
use a_simple_microkernel.MemManager.Bump.{Granted, bump-Granted, get_chunk-bump}
use a_simple_microkernel.Process.{get_stack_size}
use a_simple_microkernel.ProcessManager.{ProcessManager}
use a_simple_microkernel.Lifecycle.{get_current_process, fork_proc}
use a_simple_microkernel.Lifecycle.Copy.{load32-eq}
use a_simple_microkernel.Lifecycle.Child.{CanFork}
use a_simple_microkernel.Lifecycle.Forking.{Born, fork_proc-Born}
use a_simple_microkernel.Kernel.{Kernel, sys_fork, handle_interrupt}

-- The size of the stack of the process in slot `i`, the memory when a chunk of that size is granted for
-- the child's stack, and the address of the last byte of the chunk.
module _ (k : Kernel) (i : ℕ) where
  abbrev m : Mem
  m = k.process_manager.mem

  abbrev p : Ptr
  p = k.process_manager.slots i

  abbrev pub size : ℕ
  size = load32 m (p + 8)

  abbrev pub with_stack : ProcessManager
  with_stack = record k.process_manager { mem = (bump k.ss_manager m size).2 }

  abbrev pub stack : Ptr
  stack = (k.ss_manager.last_p + 9 + size + 2 ^ 32 - 1) % 2 ^ 32

  -- The memory for stacks has never had a chunk given back and has room for the child's, whose header
  -- is apart from the entry of the process and from its frame, and then the process can fork.
  pub record HasStack (esp : Ptr) : Type 0 where
    pub chunks : Bump.IsValid k.ss_manager
    pub never_freed : k.ss_manager.free_list ≡ null
    pub fits : k.ss_manager.last_p + size + 9 ≤ get_limit k.ss_manager.segment_sl
    pub entry : Apart p 44 k.ss_manager.last_p 9
    pub frame : Apart esp 48 k.ss_manager.last_p 9
    pub can_fork : CanFork with_stack i stack esp

  module _ (fuel : ℕ) (esp : Ptr) (h : HasStack esp)
      (current : get_current_process k.process_manager ≡ some p) where
    granted : Granted k.ss_manager m size (bump k.ss_manager m size)
    granted = bump-Granted k.ss_manager m size h.chunks h.fits

    pub with_stack-word :
        (a : Ptr) → Apart a 4 k.ss_manager.last_p 9 → load32 with_stack.mem a ≡ load32 m a
    unfolding load8
    with_stack-word a o =
        load32-eq with_stack.mem m a a
          (λ j lt. ap (λ v. v % 256) (granted.kept (a + j) (omega arith)))

    abbrev ret : ℕ
    ret = load32 with_stack.mem (esp + 8)

    sys_fork-run :
        (pid : ℕ) (s' : ProcessManager)
        → fork_proc (suc fuel) with_stack stack ret esp p ≡ some (pid, s')
        → sys_fork (suc fuel) k esp
          ≡ some (record {
            process_manager = record s' { mem = store32 s'.mem (esp + 4) pid };
            ss_manager = (bump k.ss_manager m size).1;
          })
    unfolding sys_fork get_stack_size
    sys_fork-run pid s' run =
        let same : load32 with_stack.mem (p + 8) ≡ size =
          with_stack-word (p + 8) (omega (arith, h.entry)) in
        rw
          (current, get_chunk-bump fuel k.ss_manager m size h.never_freed, same, granted.place, run)
          refl

    -- Call 2 makes the child that `fork_proc` makes on a new stack, returns the frame that it is given,
    -- and leaves the child's number in ebx.
    pub handle_interrupt-Born :
        load32 m esp ≡ 2
        → (pid j : ℕ) × (s' : ProcessManager) × (handle_interrupt (suc fuel) k esp
            ≡ some (
              esp,
              record {
                process_manager = record s' { mem = store32 s'.mem (esp + 4) pid };
                ss_manager = (bump k.ss_manager m size).1;
              },
            ))
          × Born with_stack i stack (load32 m (esp + 8)) esp pid j s'
    unfolding handle_interrupt
    handle_interrupt-Born number =
        let (pid, j, s', run, born) =
          fork_proc-Born with_stack i stack ret esp h.can_fork (load32-lt with_stack.mem (esp + 8))
            fuel in
        let same : ret ≡ load32 m (esp + 8) = with_stack-word (esp + 8) (omega (arith, h.frame)) in
        (
          pid,
          j,
          s',
          rw (number, sys_fork-run pid s' run) refl,
          subst (λ v. Born with_stack i stack v esp pid j s') same born,
        )
