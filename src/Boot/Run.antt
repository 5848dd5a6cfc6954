-- ===== src/Boot/Run.antt =====
-- The state in which `Kernel::run` enters its last loop, and the first switch from there.
use a_simple_microkernel.Prelude.{
  ℕ, suc, ◌+◌, ◌-◌, ◌^◌, ◌<◌, ◌≡◌, refl, pos, true, false, some, [], codes, length, arith,
}
use a_simple_microkernel.Store.{Ptr, null, Mem, load32}
use a_simple_microkernel.Ports.{Device}
use a_simple_microkernel.Screen.{Screen, printf}
use a_simple_microkernel.MemManager
use a_simple_microkernel.Gdt.{get_pss}
use a_simple_microkernel.Interrupts.{
  Idt, Stubs, gates, remap, Handler, InterruptManager, Active, activate,
}
use a_simple_microkernel.Interrupts.Activation.{enabled}
use a_simple_microkernel.Input.{Input, copy}
use a_simple_microkernel.Keyboard.Start.{Controller, start-Enabled}
use a_simple_microkernel.Keyboard.Editing.{Refines}
use a_simple_microkernel.Mouse
use a_simple_microkernel.ProcessManager
use a_simple_microkernel.ProcessManager.{ProcessManager, schedule}
use a_simple_microkernel.ProcessManager.Table.{IsValid}
use a_simple_microkernel.Boot.{Booted, handlers, clear_input, run, kernel_main}
use a_simple_microkernel.Boot.Init.{
  Empty, Created, init_frame, create_init-Created, schedule-Created,
}

-- Which object stands behind each vector.
pub record Connected (m : InterruptManager) : Type 0 where
  pub timer : m.handlers 0x20 ≡ some Handler.process_manager
  pub keyboard : m.handlers 0x21 ≡ some Handler.keyboard
  pub mouse : m.handlers 0x2C ≡ some Handler.mouse
  pub system_call : m.handlers 0x80 ≡ some Handler.kernel
  pub offset : m.hardware_interrupt_offset ≡ 0x20

-- The kernel is ready to be entered by an interrupt.
pub record Running {S : Type 0} (init : Ptr) (b : Booted S) : Type 0 where
  pub created : Created init b.kernel.process_manager
  pub connected : Connected b.interrupts
  pub listening : enabled b.active.events ≡ true
  pub line : Refines b.input (record { text = []; entered = false })

pub handlers-Connected : Connected handlers
unfolding handlers
handlers-Connected = record {
  timer = refl;
  keyboard = refl;
  mouse = refl;
  system_call = refl;
  offset = refl;
}

clear_input-Refines : (s : Input) → Refines (clear_input s) (record { text = []; entered = false })
unfolding clear_input copy
clear_input-Refines s = record {
  text = record { index = refl; bytes = refl };
  entered = refl;
  fits = omega arith;
}

new-Empty :
    (m : Mem) (screen : Screen)
    → let s = ProcessManager.new m screen in
      Empty s × (s.process_mem_manager ≡ MemManager.new get_pss) × (s.last_pid ≡ 2 ^ 32 - 1)
unfolding ProcessManager.new
new-Empty m screen = ((λ i. refl, refl, refl), refl, refl)

activate-enabled : (manager : Ptr) (w : Active) → enabled (activate manager w).events ≡ true
unfolding activate enabled
activate-enabled manager w = refl

module _ {S : Type 0} (d : Device S) (c : Controller d) where
  -- `run` on whatever screen.
  run-Running :
      (fuel : ℕ) (manager : Ptr) (stubs : Stubs) (init : Ptr) (idt : Idt) (m : Mem)
      (screen : Screen) (buffer : ℕ → ℕ) (input : Input) (s : S) (esp : Ptr)
      → c.idle s ≡ true
      → length (c.pending s) < suc fuel
      → init < 2 ^ 32
      → (b : Booted S) × (run d (suc fuel) manager stubs init idt m screen buffer input s ≡ some b)
        × Running init b
        × (pm : ProcessManager) × (schedule 256 b.kernel.process_manager esp
            ≡ some (init_frame, pm))
        × (pm.current_index ≡ pos 0)
        × (load32 pm.mem (init_frame + 36) ≡ init)
        × IsValid pm
  unfolding run
  run-Running fuel manager stubs init idt m screen buffer input s esp quiet few lt =
      let (s1, started, _, _, _, _) = start-Enabled d c (suc fuel) s quiet few in
      let pm = ProcessManager.new m (record screen { video = (Mouse.new buffer screen.video).1 }) in
      let (empty, chunks, last) =
        new-Empty m (record screen { video = (Mouse.new buffer screen.video).1 }) in
      let (s', ss, made, created) = create_init-Created fuel pm init empty chunks last lt in
      let (next, switch, current, eip, v) = schedule-Created init s' esp created in
      (
        record {
          kernel = record { process_manager = s'; ss_manager = ss };
          interrupts = handlers;
          idt = gates stubs idt 0x20;
          active =
              activate manager (record { active_interrupt_manager = null; events = remap 0x20 });
          mouse = (Mouse.new buffer screen.video).0;
          input = clear_input input;
          devices = Mouse.start d s1;
        },
        rw (started, made) refl,
        record {
          created = created;
          connected = handlers-Connected;
          listening =
              activate-enabled manager
                (record { active_interrupt_manager = null; events = remap 0x20 });
          line = clear_input-Refines input;
        },
        next,
        switch,
        current,
        eip,
        v,
      )

  -- On an idle controller in which fewer bytes wait than the fuel, `kernelMain` reaches the
  -- last loop of `run`. The
  -- table then holds one process, in slot 0 and with number 0, which is ready with its frame at the
  -- top of its stack, and no process is in execution; the four objects stand behind the vectors 0x20,
  -- 0x21, 0x2C and 0x80; interrupts are enabled; the input is an empty line that is not entered.
  -- Whatever state the first call of `schedule` is given, it puts that process into execution and
  -- returns a frame that goes on at `init`, and the table is valid.
  pub kernel_main-Running :
      (fuel : ℕ) (manager : Ptr) (stubs : Stubs) (init : Ptr) (idt : Idt) (m : Mem)
      (screen : Screen) (buffer : ℕ → ℕ) (input : Input) (s : S) (esp : Ptr)
      → c.idle s ≡ true
      → length (c.pending s) < suc fuel
      → init < 2 ^ 32
      → (b : Booted S) × (kernel_main d (suc fuel) manager stubs init idt m screen buffer input s
          ≡ some b)
        × Running init b
        × (pm : ProcessManager) × (schedule 256 b.kernel.process_manager esp
            ≡ some (init_frame, pm))
        × (pm.current_index ≡ pos 0)
        × (load32 pm.mem (init_frame + 36) ≡ init)
        × IsValid pm
  unfolding kernel_main
  kernel_main-Running fuel manager stubs init idt m screen buffer input s esp quiet few lt =
      run-Running fuel manager stubs init idt m (printf screen (codes "OS booting\n")) buffer input
        s esp quiet few lt
