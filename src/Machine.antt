-- ===== src/Machine.antt =====
-- The parts at work together: the objects behind the vectors, as `InterruptManager::handle_interrupt`
-- of src/hwcomm/interrupts.cpp calls them. The drivers read their bytes from the ports here.
pub mod Live
pub mod Reach
pub mod Typed
use a_simple_microkernel.Prelude.{ℕ, zero, suc, Option, some, ◌==◌, if◌then◌else◌, ◌>>=◌}
use a_simple_microkernel.Store.{Ptr}
use a_simple_microkernel.Ports.{Device}
use a_simple_microkernel.Ports.Port8Bit
use a_simple_microkernel.Input.{Input}
use a_simple_microkernel.ProcessManager
use a_simple_microkernel.ProcessManager.{ProcessManager}
use a_simple_microkernel.Keyboard
use a_simple_microkernel.Mouse
use a_simple_microkernel.Mouse.{MouseDriver, bit}
use a_simple_microkernel.Kernel
use a_simple_microkernel.Kernel.{Kernel}
use a_simple_microkernel.Interrupts
use a_simple_microkernel.Interrupts.{Handler, InterruptManager, World}

-- The states of the objects, and of the devices at the ports. The memory and the screen are those of
-- the world that an interrupt works on.
pub record Machine (S : Type 0) : Type 0 where
  pub kernel : Kernel
  pub mouse : MouseDriver
  pub input : Input
  pub devices : S

module _ {S : Type 0} where
  abbrev pub kernel_of : World (Machine S) → Kernel
  kernel_of w = record w.objects.kernel {
    process_manager = record w.objects.kernel.process_manager { mem = w.mem; screen = w.screen };
  }

  abbrev pub with_kernel : World (Machine S) → Kernel → World (Machine S)
  with_kernel w k = record w {
    objects = record w.objects { kernel = k };
    mem = k.process_manager.mem;
    screen = k.process_manager.screen;
  }

  abbrev pub with_manager : World (Machine S) → ProcessManager → World (Machine S)
  with_manager w s = with_kernel w (record (kernel_of w) { process_manager = s })

module _ {S : Type 0} (d : Device S) (fuel : ℕ) where
  -- `KeyboardDriver::handle_interrupt` with its port.
  unfoldable pub key_interrupt : World (Machine S) → Ptr → Option (Ptr × World (Machine S))
  key_interrupt w esp =
      let (key, s) = Port8Bit.read d Keyboard.data_port w.objects.devices in
      Keyboard.handle_interrupt fuel
        (record { input = w.objects.input; manager = (kernel_of w).process_manager }) key esp
      >>= λ (esp', c).
          let w' = with_manager w c.manager in
          some (esp', record w' { objects = record w'.objects { input = c.input; devices = s } })

  -- `MouseDriver::handle_interrupt` with its ports: without bit 5 in the status no byte is read.
  unfoldable pub mouse_interrupt : World (Machine S) → Ptr → Option (Ptr × World (Machine S))
  mouse_interrupt w esp =
      let (status, s1) = Port8Bit.read d Mouse.command_port w.objects.devices in
      let (byte, s2) = Port8Bit.read d Mouse.data_port s1 in
      let s = if bit status 0x20 == 0 then s1 else s2 in
      Mouse.handle_interrupt fuel w.objects.mouse (kernel_of w).process_manager status byte esp
      >>= λ (esp', mouse, manager).
          let w' = with_manager w manager in
          some (esp', record w' { objects = record w'.objects { mouse = mouse; devices = s } })

  -- The virtual `handle_interrupt` of each of the four objects.
  unfoldable pub call : Handler → World (Machine S) → Ptr → Option (Ptr × World (Machine S))
  unfolding key_interrupt mouse_interrupt
  call Handler.process_manager w esp =
      let (esp', s) = ProcessManager.handle_interrupt (kernel_of w).process_manager esp in
      some (esp', with_manager w s)
  call Handler.keyboard w esp = key_interrupt w esp
  call Handler.mouse w esp = mouse_interrupt w esp
  call Handler.kernel w esp =
      Kernel.handle_interrupt fuel (kernel_of w) esp >>= λ (esp', k). some (esp', with_kernel w k)

  -- An interrupt with all that it brings about.
  unfoldable pub interrupt :
      InterruptManager → ℕ → World (Machine S) → Ptr → Option (Ptr × World (Machine S))
  interrupt m v w esp = Interrupts.handle_interrupt call m v w esp

  -- `n` interrupts of the keyboard, each at the state that the one before has returned.
  unfoldable pub typed :
      ℕ → InterruptManager → World (Machine S) → Ptr → Option (Ptr × World (Machine S))
  unfolding interrupt
  typed zero m w esp = some (esp, w)
  typed (suc n) m w esp = interrupt m 0x21 w esp >>= λ (esp', w'). typed n m w' esp'
