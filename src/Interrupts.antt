-- ===== src/Interrupts.antt =====
-- The interrupt descriptor table and the dispatch of interrupts: src/hwcomm/interrupts.cpp and
-- include/hwcomm/interrupts.h. What the CPU is told is a list of events, the newest first.
pub mod Gates
pub mod Activation
pub mod Dispatch
use Prim.Native.Nat.{bit_or}
use a_simple_microkernel.Prelude.{
  ℕ, zero, suc, ◌+◌, ◌*◌, ◌/◌, ◌%◌, ◌^◌, Bool, true, false, not, ◌&&◌, Option, none, some, List, [],
  ◌∷◌, ltb, leb, ◌==◌, if◌then◌else◌, ◌>>=◌, codes,
}
use a_simple_microkernel.Store.{Ptr, null, Mem, load32}
use a_simple_microkernel.Screen.{Screen, printf, printf_hex, printf_hex32}
use a_simple_microkernel.Gdt.{get_css}
use a_simple_microkernel.Ports.{Event, outb_slow, int, sti, cli}

-- `struct GateDescriptor`
pub record GateDescriptor : Type 0 where
  pub handler_addr_lo : ℕ
  pub gdt_css : ℕ
  pub reserved : ℕ
  pub access : ℕ
  pub handler_addr_hi : ℕ

abbrev pub Idt : Type 0
Idt = ℕ → GateDescriptor

-- The size and the base that `lidt` is given. There are 256 gates of eight bytes, and the size
-- is one less than all of them.
unfoldable pub idt_pointer : (idt : ℕ) → ℕ × ℕ
idt_pointer idt = (2047, idt % 2 ^ 32)

unfoldable pub set_idt_entry :
    Idt → (t_interrupt t_css_offset t_handler t_privilege t_type : ℕ) → Idt
set_idt_entry idt t_interrupt t_css_offset t_handler t_privilege t_type v =
    if v == t_interrupt % 256
    then record {
      handler_addr_lo = t_handler % 65536;
      gdt_css = t_css_offset;
      reserved = 0;
      access = bit_or (bit_or 0x80 (t_privilege % 4 * 32)) t_type;
      handler_addr_hi = t_handler / 65536 % 65536;
    }
    else idt v

-- The addresses of the stubs of src/asm/interruptstubs.s, which the linker fixes.
pub record Stubs : Type 0 where
  pub ignore_interrupt : ℕ
  pub handle_exception : ℕ → ℕ
  pub handle_interrupt_request : ℕ → ℕ
  pub handle_interrupt_request_0x80 : ℕ

abbrev pub interrupt_gate : ℕ
interrupt_gate = 0xE

-- The first loop of the constructor, from vector `i` down to 0.
unfoldable pub ignore_all : Stubs → Idt → ℕ → Idt
unfolding set_idt_entry
ignore_all stubs idt zero = set_idt_entry idt zero get_css stubs.ignore_interrupt 0 interrupt_gate
ignore_all stubs idt (suc i) =
    ignore_all stubs (set_idt_entry idt (suc i) get_css stubs.ignore_interrupt 0 interrupt_gate) i

-- The lines of the constructor that set `n` gates in a row: vector `base + k` to `handler k`, from
-- `k` on.
unfoldable pub set_gates : (ℕ → ℕ) → ℕ → Idt → (n k : ℕ) → Idt
unfolding set_idt_entry
set_gates handler base idt zero k = idt
set_gates handler base idt (suc n) k =
    set_gates handler base (set_idt_entry idt (base + k) get_css (handler k) 0 interrupt_gate) n
      (k + 1)

-- The gates that the constructor sets: all ignored, then the 20 exceptions, the 16 hardware
-- interrupts and the system call.
unfoldable pub gates : Stubs → Idt → ℕ → Idt
gates stubs idt offset =
    let exceptions = set_gates stubs.handle_exception 0 (ignore_all stubs idt 255) 20 0 in
    let requests = set_gates stubs.handle_interrupt_request offset exceptions 16 0 in
    set_idt_entry requests 0x80 get_css stubs.handle_interrupt_request_0x80 0 interrupt_gate

-- The port writes of the constructor, which put the two controllers' vectors at the offset.
unfoldable pub remap : ℕ → List Event
remap offset =
    outb_slow 0xA1 0
    ∷ outb_slow 0x21 0
    ∷ outb_slow 0xA1 1
    ∷ outb_slow 0x21 1
    ∷ outb_slow 0xA1 2
    ∷ outb_slow 0x21 4
    ∷ outb_slow 0xA1 ((offset + 8) % 256)
    ∷ outb_slow 0x21 (offset % 256)
    ∷ outb_slow 0xA0 0x11
    ∷ outb_slow 0x20 0x11
    ∷ []

-- The objects of the kernel that handle an interrupt.
pub data Handler : Type 0 where
  process_manager keyboard mouse kernel : Handler

abbrev pub same : Handler → Handler → Bool
same process_manager process_manager = true
same keyboard keyboard = true
same mouse mouse = true
same kernel kernel = true
same _ _ = false

pub record InterruptManager : Type 0 where
  pub handlers : ℕ → Option Handler
  pub hardware_interrupt_offset : ℕ

-- The manager that the constructor makes: no vector has a handler.
unfoldable pub new : ℕ → InterruptManager
new offset = record { handlers = λ v. none; hardware_interrupt_offset = offset }

-- `InterruptHandler::InterruptHandler` and `set_manager`: the object takes its vector over.
unfoldable pub set_handler : InterruptManager → ℕ → Handler → InterruptManager
set_handler m num h = record m { handlers = λ v. if v == num % 256 then some h else m.handlers v }

-- `InterruptHandler::~InterruptHandler`: the vector is left, if it is still the object's.
unfoldable pub remove_handler : InterruptManager → ℕ → Handler → InterruptManager
remove_handler m num h = elim (m.handlers (num % 256)) [
  | none ↦ m
  | some g ↦
      if same g h
      then record m { handlers = λ v. if v == num % 256 then none else m.handlers v }
      else m
]

unfoldable pub get_hw_interrupt_offset : InterruptManager → ℕ
get_hw_interrupt_offset m = m.hardware_interrupt_offset

-- `active_interrupt_manager`, the address of a manager or null, and what the CPU was told.
pub record Active : Type 0 where
  pub active_interrupt_manager : Ptr
  pub events : List Event

unfoldable pub deactivate : Ptr → Active → Active
deactivate this w =
    if w.active_interrupt_manager == this
    then record { active_interrupt_manager = null; events = cli ∷ w.events }
    else w

unfoldable pub activate : Ptr → Active → Active
unfolding deactivate
activate this w =
    let w' =
      if w.active_interrupt_manager == null then w else deactivate w.active_interrupt_manager w in
    record { active_interrupt_manager = this; events = sti ∷ w'.events }

-- What an interrupt works on beside the objects' own states.
pub record World (S : Type 0) : Type 0 where
  pub objects : S
  pub mem : Mem
  pub screen : Screen
  pub events : List Event

module _ {S : Type 0} where
  -- The messages of two exceptions, from the frame that `esp` points at.
  unfoldable pub report : ℕ → World S → Ptr → World S
  report interrupt w esp =
      if interrupt == 0x0D
      then record w {
        screen =
            printf
              (printf_hex32 (printf w.screen (codes "General Protection Exception, error is: 0x"))
                (load32 w.mem (esp + 32)))
              (codes "\n");
        events = int 0x20 ∷ w.events;
      }
      else if interrupt == 0x06
      then record w {
        screen =
            printf
              (printf_hex32 (printf w.screen (codes "Invalid Instruction Exception, eip is: 0x"))
                (load32 w.mem (esp + 36)))
              (codes "\n");
      }
      else w

  -- Hardware interrupts are acknowledged, those of the second controller at both.
  unfoldable pub acknowledge : InterruptManager → ℕ → World S → World S
  acknowledge m interrupt w =
      if leb m.hardware_interrupt_offset interrupt
        && ltb interrupt (m.hardware_interrupt_offset + 16)
      then record w {
        events =
            if leb (m.hardware_interrupt_offset + 8) interrupt
            then outb_slow 0xA0 0x20 ∷ outb_slow 0x20 0x20 ∷ w.events
            else outb_slow 0x20 0x20 ∷ w.events;
      }
      else w

-- `call` is the virtual `handle_interrupt` of an object.
module _ {S : Type 0} (call : Handler → World S → Ptr → Option (Ptr × World S)) where
  unfoldable pub handled : InterruptManager → ℕ → World S → Ptr → Option (Ptr × World S)
  handled m interrupt w esp = elim (m.handlers interrupt) [
    | some h ↦ call h w esp
    | none ↦ some (
      esp,
      if interrupt == m.hardware_interrupt_offset then w else record w {
        screen =
            printf (printf_hex (printf w.screen (codes "UNHANDLED INTERRUPT: 0x")) interrupt)
              (codes "\n");
      },
    )
  ]

  unfoldable pub handle_interrupt : InterruptManager → ℕ → World S → Ptr → Option (Ptr × World S)
  handle_interrupt m interrupt w esp = handled m interrupt w esp >>= λ (esp', w').
      some (esp', acknowledge m interrupt (report interrupt w' esp'))

  -- With no active manager an interrupt returns to where it came from.
  unfoldable pub receive_interrupt :
      Option InterruptManager → ℕ → World S → Ptr → Option (Ptr × World S)
  receive_interrupt none interrupt w esp = some (esp, w)
  receive_interrupt (some m) interrupt w esp = handle_interrupt m interrupt w esp
