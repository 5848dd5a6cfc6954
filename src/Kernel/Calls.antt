-- ===== src/Kernel/Calls.antt =====
-- System calls by their numbers.
use a_simple_microkernel.Prelude.{ℕ, ◌+◌, ◌-◌, ◌%◌, ◌^◌, ◌≤◌, ◌<◌, ◌≡◌, some, List, [], length}
use a_simple_microkernel.Store.{Ptr, Mem, load32, store32}
use a_simple_microkernel.Store.Laws.{Apart, load32-lt}
use a_simple_microkernel.Store.Chain.{since}
use a_simple_microkernel.Process.{matches}
use a_simple_microkernel.Process.Receive.{Queue, rec_msg-none}
use a_simple_microkernel.Lifecycle.{execve_proc, get_current_process}
use a_simple_microkernel.Lifecycle.Execve.{Entered, execve_proc-Entered}
use a_simple_microkernel.Kernel.{Kernel, with_mem, sys_waitpid, sys_execve, handle_interrupt}

module _ (fuel : ℕ) (k : Kernel) (esp p : Ptr)
    (current : get_current_process k.process_manager ≡ some p) where
  abbrev m : Mem
  m = k.process_manager.mem

  -- Call 11 with the entry point in ebx and the parameters in ecx makes a frame at the top of the
  -- stack of the process in execution, from which it goes on at that entry point with those
  -- parameters, and returns that frame, if the entry and the frame are apart and the stack pointer
  -- is 56 at least.
  pub handle_interrupt-Entered :
      load32 m esp ≡ 11
      → 56 ≤ load32 m (p + 4)
      → Apart p 44 (load32 m (p + 4) - 56) 56
      → (f : Ptr) × (k' : Kernel) × (handle_interrupt fuel k esp ≡ some (f, k'))
        × Entered m k'.process_manager.mem p (load32 m (esp + 8)) (load32 m (esp + 4)) f
  unfolding handle_interrupt sys_execve
  handle_interrupt-Entered number fits apart =
      let argv = load32 m (esp + 8) in
      let entry = load32 m (esp + 4) in
      let (f, s) = execve_proc k.process_manager p argv entry in
      (
        f,
        record k { process_manager = s },
        rw (number, current),
        execve_proc-Entered k.process_manager p argv entry fits (load32-lt m (esp + 4))
            (load32-lt m (esp + 8)) apart,
      )

  -- Call 7, when no message to the process in execution has the state in ecx and the sender in the
  -- low half of ebx (-1 stands for any), does not wait: it gives -1 in edx and changes nothing else, if the
  -- queue is well linked and the fuel greater than its length.
  pub handle_interrupt-waitpid_none :
      (xs : List Ptr)
      → load32 m esp ≡ 7
      → Queue m p xs
      → length xs < fuel
      → since (matches m (load32 m (esp + 8)) (load32 m (esp + 4) % 2 ^ 16)) xs ≡ []
      → handle_interrupt fuel k esp ≡ some (esp, with_mem k (store32 m (esp + 12) (2 ^ 32 - 1)))
  unfolding handle_interrupt sys_waitpid
  handle_interrupt-waitpid_none xs number q enough e = rw (
    number,
    current,
    rec_msg-none m p fuel (load32 m (esp + 8)) (load32 m (esp + 4) % 2 ^ 16) xs q enough e,
  )
