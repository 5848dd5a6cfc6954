-- ===== src/Examples/Booting.antt =====
-- The start of the kernel on a concrete keyboard controller.
use a_simple_microkernel.Prelude.{
  ℕ, ◌-◌, ◌*◌, ◌/◌, ◌%◌, ◌+◌, ◌≡◌, refl, ap, pos, Bool, true, false, not, some, List, [], ◌∷◌,
  arith, ◌==◌, if◌then◌else◌,
}
use a_simple_microkernel.Store.{load32}
use a_simple_microkernel.Ports.{Event, Device, outb, outb_slow, outw, outl, int, sti, cli}
use a_simple_microkernel.Screen.{Screen}
use a_simple_microkernel.Input.{Input}
use a_simple_microkernel.Interrupts.{Stubs, Idt}
use a_simple_microkernel.Keyboard
use a_simple_microkernel.Keyboard.Start.{Controller, start-Enabled}
use a_simple_microkernel.ProcessManager.{ProcessManager, schedule}
use a_simple_microkernel.ProcessManager.Table.{IsValid}
use a_simple_microkernel.Boot.{Booted, kernel_main}
use a_simple_microkernel.Boot.Init.{init_frame}
use a_simple_microkernel.Boot.Run.{Running, kernel_main-Running}

-- A controller: the bytes to be read, the configuration, and whether it waits for the operand of
-- command 0x60.
record Board : Type 0 where
  pub bytes : List ℕ
  pub configuration : ℕ
  pub awaiting : Bool

abbrev front : List ℕ → ℕ
front [] = 0
front (b ∷ bs) = b

abbrev rest : List ℕ → List ℕ
rest [] = []
rest (b ∷ bs) = bs

abbrev status : List ℕ → ℕ
status [] = 0x1C
status (b ∷ bs) = 0x1D

abbrev board_in : ℕ → Board → ℕ × Board
board_in port b =
    if port == 0x64
    then (status b.bytes, b)
    else (if port == 0x60 then (front b.bytes, record b { bytes = rest b.bytes }) else (0, b))

abbrev command : ℕ → Board → Board
command v b =
    if v == 0xAE
    then record b { configuration = b.configuration - b.configuration / 16 % 2 * 16 }
    else (if v == 0x20
        then record b { bytes = b.configuration % 256 ∷ [] }
        else (if v == 0x60 then record b { awaiting = true } else b))

abbrev operand : ℕ → Board → Board
operand v b = if b.awaiting then record b { configuration = v; awaiting = false } else b

abbrev board_out : Event → Board → Board
board_out (outb port v) b =
    if port == 0x64 then command v b else (if port == 0x60 then operand v b else b)
board_out (outb_slow port v) b = b
board_out (outw port v) b = b
board_out (outl port v) b = b
board_out (int n) b = b
board_out sti b = b
board_out cli b = b

abbrev board : Device Board
board = record { inb = board_in; inw = λ port b. (0, b); inl = λ port b. (0, b); out = board_out }

operand-idle :
    (v : ℕ) (b : Board) → not b.awaiting ≡ true → (operand v b).configuration ≡ b.configuration
operand-idle v b i = ground arith

abbrev board_controller : Controller board
board_controller = record {
  pending = λ b. b.bytes;
  config = λ b. b.configuration % 256;
  idle = λ b. not b.awaiting;
  byte = λ b. omega arith;
  status_full = λ s b bs e. rw e refl;
  status_empty = λ s e. rw e refl;
  status_kept = λ s. (refl, refl, refl);
  data_read = λ s b bs e. rw e (refl, refl, refl, refl);
  enable = λ s i. (refl, omega arith, i);
  read_config = λ s i e. (refl, refl, i);
  write_config = λ s v i lt. (omega arith, refl);
  keyboard_command = λ s i. ap (λ c. c % 256) (operand-idle 0xF4 s i);
}

-- Two bytes wait, the keyboard is disabled, and so are its interrupts.
abbrev off : Board
off = record { bytes = 0xFA ∷ 0x1C ∷ []; configuration = 0x74; awaiting = false }

start-Enabled_example :
    (s' : Board) × (Keyboard.start board 3 off ≡ some s')
    × (s'.configuration % 256 % 2 ≡ 1)
    × (s'.configuration % 256 / 16 % 2 ≡ 0)
    × (s'.configuration % 256 / 2 % 8 ≡ 0x74 / 2 % 8)
    × (s'.configuration % 256 / 32 ≡ 0x74 / 32)
start-Enabled_example = start-Enabled board board_controller 3 off refl (omega arith)

abbrev stubs : Stubs
stubs = record {
  ignore_interrupt = 0x100000;
  handle_exception = λ k. 0x101000 + k * 16;
  handle_interrupt_request = λ k. 0x102000 + k * 16;
  handle_interrupt_request_0x80 = 0x103000;
}

abbrev no_gates : Idt
no_gates =
    λ v. record { handler_addr_lo = 0; gdt_css = 0; reserved = 0; access = 0; handler_addr_hi = 0 }

abbrev clear : Screen
clear = record { video = λ i. 0; row = 0; column = 0; half = 0 }

abbrev raw : Input
raw = record { in_buffer = λ i. 7; buf_index = pos 9; ready = pos 3 }

kernel_main-Running_example :
    (b : Booted Board) × (kernel_main board 3 0x9000 stubs 0x104000 no_gates
        (λ p. 0)
        clear
        (λ i. 0)
        raw
        off
      ≡ some b)
    × Running 0x104000 b
    × (pm : ProcessManager) × (schedule 256 b.kernel.process_manager 9000 ≡ some (init_frame, pm))
    × (pm.current_index ≡ pos 0)
    × (load32 pm.mem (init_frame + 36) ≡ 0x104000)
    × IsValid pm
kernel_main-Running_example =
    kernel_main-Running board board_controller 2 0x9000 stubs 0x104000 no_gates (λ p. 0) clear
      (λ i. 0) raw off 9000 refl (omega arith) (omega arith)
