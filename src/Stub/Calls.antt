-- ===== src/Stub/Calls.antt =====
-- The system calls as a process sees them: from its registers to its registers.
use a_simple_microkernel.Prelude.{ℕ, ◌≡◌, refl, ap, some}
use a_simple_microkernel.Store.{Ptr}
use a_simple_microkernel.Ports.{Device}
use a_simple_microkernel.Lifecycle.{get_current_process}
use a_simple_microkernel.Interrupts
use a_simple_microkernel.Interrupts.{Handler, InterruptManager, World, handled, report, acknowledge}
use a_simple_microkernel.Kernel
use a_simple_microkernel.Kernel.{Kernel}
use a_simple_microkernel.Boot.Run.{Connected}
use a_simple_microkernel.Machine.{Machine, kernel_of, with_kernel, call, interrupt}
use a_simple_microkernel.Machine.Reach.{table, ended}
use a_simple_microkernel.Stub.{Registers, save, restore, request}

module _ {S : Type 0} (d : Device S) (fuel : ℕ) (m : InterruptManager) (n : Connected m)
    (r : Registers) (w : World (Machine S)) where
  -- The machine when the stub has saved the registers.
  abbrev pub entered : World (Machine S)
  entered = record w { mem = (save r w.mem).1 }

  pub current-entered :
      (p : Ptr)
      → get_current_process (table w) ≡ some p
      → get_current_process (kernel_of entered).process_manager ≡ some p
  unfolding get_current_process
  current-entered p e = e

  handled-kernel :
      (f : Ptr) (k : Kernel)
      → Kernel.handle_interrupt fuel (kernel_of entered) (save r w.mem).0 ≡ some (f, k)
      → handled (call d fuel) m 0x80 entered (save r w.mem).0 ≡ some (f, with_kernel entered k)
  unfolding handled call
  handled-kernel f k run = rw (handled, n.system_call) (rw run refl)

  -- A system call that the kernel serves returns to the process whose frame the kernel returns.
  pub request-served :
      (f : Ptr) (k : Kernel)
      → Kernel.handle_interrupt fuel (kernel_of entered) (save r w.mem).0 ≡ some (f, k)
      → (w' : World (Machine S)) × (request d fuel m 0x80 r w
          ≡ some (restore k.process_manager.mem f, w'))
        × (w'.mem ≡ k.process_manager.mem)
        × (w'.objects ≡ (with_kernel entered k).objects)
  unfolding request interrupt Interrupts.handle_interrupt
  request-served f k run =
      let w1 = with_kernel entered k in
      let w2 = acknowledge m 0x80 (report 0x80 w1 f) in
      let same = ended m 0x80 w1 f in
      (
        w2,
        rw (handled-kernel f k run) (ap (λ mem. some (restore mem f, w2)) same.0),
        same.0,
        same.1,
      )
