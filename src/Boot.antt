-- ===== src/Boot.antt =====
-- The start of the kernel: `Kernel::run` of src/kernel.cpp up to its last loop, with no interrupt on
-- the way.
pub mod Init
pub mod Run
use a_simple_microkernel.Prelude.{
  ℕ, ◌+◌, ◌-◌, ◌%◌, ◌^◌, ℤ, pos, negsuc, Option, none, some, List, ◌>>=◌, codes,
}
use a_simple_microkernel.Store.{Ptr, null, Mem}
use a_simple_microkernel.Ports.{Device}
use a_simple_microkernel.Gdt.{get_sss}
use a_simple_microkernel.Screen.{Screen, printf}
use a_simple_microkernel.MemManager
use a_simple_microkernel.MemManager.{MemManager, get_chunk}
use a_simple_microkernel.Interrupts
use a_simple_microkernel.Interrupts.{
  Idt, Stubs, gates, remap, InterruptManager, Handler, set_handler, Active, activate,
}
use a_simple_microkernel.Input.{Input, set_byte}
use a_simple_microkernel.Keyboard
use a_simple_microkernel.Mouse
use a_simple_microkernel.Mouse.{MouseDriver}
use a_simple_microkernel.Process.{setup}
use a_simple_microkernel.ProcessManager
use a_simple_microkernel.ProcessManager.{ProcessManager, add_proc}
use a_simple_microkernel.Lifecycle.{get_process_mem}
use a_simple_microkernel.Kernel.{Kernel}

-- What `run` leaves, with the state of the devices at the ports.
pub record Booted (S : Type 0) : Type 0 where
  pub kernel : Kernel
  pub interrupts : InterruptManager
  pub idt : Idt
  pub active : Active
  pub mouse : MouseDriver
  pub input : Input
  pub devices : S

-- The vectors of the four objects, in the order in which they take them.
unfoldable pub handlers : InterruptManager
unfolding Interrupts.new set_handler
handlers =
    let m1 = set_handler (Interrupts.new 0x20) 0x20 Handler.process_manager in
    let m2 = set_handler m1 0x21 Handler.keyboard in
    let m3 = set_handler m2 0x2C Handler.mouse in set_handler m3 0x80 Handler.kernel

-- `in_buffer[0] = 0; buf_index = -1; ready = -1;`
unfoldable pub clear_input : Input → Input
unfolding set_byte
clear_input s = record {
  in_buffer = set_byte s.in_buffer (pos 0) 0;
  buf_index = negsuc 0;
  ready = negsuc 0;
}

-- The init process: its entry, its stack, whose size is given as 16384, and its place in the table.
unfoldable pub create_init :
    ℕ → ProcessManager → MemManager → (init : Ptr) → Option (ProcessManager × MemManager)
create_init fuel s ss_manager init = get_process_mem fuel s >>= λ (new_task, s1).
    get_chunk fuel ss_manager s1.mem 4096 >>= λ (chunk, ss, m).
    let new_stack = (chunk + 4096 + 2 ^ 32 - 1) % 2 ^ 32 in
    add_proc (record s1 { mem = setup m new_task init new_stack 16384 }) new_task >>= λ (_, s2).
    some (s2, ss)

-- The arguments stand for what is there before: the address of the interrupt manager, the stubs and
-- the entry point of `init`, the memory, the screen, the uninitialised packet buffer and the input.
unfoldable pub run :
    {S : Type 0}
    → Device S
    → ℕ
    → (manager : Ptr) → Stubs
    → (init : Ptr) → Idt
    → Mem
    → Screen
    → (buffer : ℕ → ℕ) → Input
    → S
    → Option (Booted S)
run d fuel manager stubs init idt mem screen buffer input s = Keyboard.start d fuel s >>= λ s1.
    let (mouse, video) = Mouse.new buffer screen.video in
    let process_manager = ProcessManager.new mem (record screen { video = video }) in
    create_init fuel process_manager (MemManager.new get_sss) init >>= λ (pm, ss). some (record {
      kernel = record { process_manager = pm; ss_manager = ss };
      interrupts = handlers;
      idt = gates stubs idt 0x20;
      active = activate manager (record { active_interrupt_manager = null; events = remap 0x20 });
      mouse = mouse;
      input = clear_input input;
      devices = Mouse.start d s1;
    })

-- `kernelMain` of src/main.cpp, behind the constructor of `Kernel`.
unfoldable pub kernel_main :
    {S : Type 0}
    → Device S
    → ℕ
    → (manager : Ptr) → Stubs
    → (init : Ptr) → Idt
    → Mem
    → Screen
    → (buffer : ℕ → ℕ) → Input
    → S
    → Option (Booted S)
kernel_main d fuel manager stubs init idt mem screen buffer input s =
    run d fuel manager stubs init idt mem (printf screen (codes "OS booting\n")) buffer input s
