-- ===== src/Examples/Vectors.antt =====
-- The interrupt table at concrete data.
use a_simple_microkernel.Prelude.{ℕ, ◌+◌, ◌*◌, ◌≡◌, refl, Option, some, List, [], ◌∷◌, ◌++◌, arith}
use a_simple_microkernel.Store.{Ptr}
use a_simple_microkernel.Gdt.{get_css}
use a_simple_microkernel.Interrupts.{
  Active, Idt, Stubs, gates, Handler, InterruptManager, World, handled, handle_interrupt,
  set_handler, new,
}
use a_simple_microkernel.Interrupts.Gates.{expected, gates-expected}
use a_simple_microkernel.Interrupts.Activation.{
  enabled, InStep, Change, on, off, changes, holder, changes-InStep,
}
use a_simple_microkernel.Interrupts.Dispatch.{needed, handle_interrupt-acknowledged}

abbrev stubs : Stubs
stubs = record {
  ignore_interrupt = 0x100000;
  handle_exception = λ k. 0x101000 + k * 16;
  handle_interrupt_request = λ k. 0x102000 + k * 16;
  handle_interrupt_request_0x80 = 0x103000;
}

abbrev empty : Idt
empty =
    λ v. record { handler_addr_lo = 0; gdt_css = 0; reserved = 0; access = 0; handler_addr_hi = 0 }

gates-expected_example :
    let g = gates stubs empty 0x20 0x21 in
    (g.handler_addr_lo + 65536 * g.handler_addr_hi ≡ expected stubs 0x20 0x21)
    × (g.access ≡ 0x8E)
    × (g.gdt_css ≡ get_css)
gates-expected_example =
    gates-expected stubs empty 0x20 0x21 (omega arith) (omega arith) (omega arith)
      (unfold expected in omega arith)

-- A handler that leaves everything as it is, at the mouse's vector, of the second controller.
abbrev idle : Handler → World ℕ → Ptr → Option (Ptr × World ℕ)
idle h w esp = some (esp, w)

abbrev manager : InterruptManager
manager = set_handler (new 0x20) 0x2C Handler.mouse

abbrev world : World ℕ
world = record {
  objects = 0;
  mem = λ p. 0;
  screen = record { video = λ i. 0; row = 0; column = 0; half = 0 };
  events = [];
}

handle_interrupt-acknowledged_example :
    (w'' : World ℕ) × (handle_interrupt idle manager 0x2C world 9000 ≡ some (9000, w''))
    × (w''.events ≡ needed manager.hardware_interrupt_offset 0x2C ++ [])
    × (w''.objects ≡ 0)
handle_interrupt-acknowledged_example =
    handle_interrupt-acknowledged idle manager 0x2C world world 9000 9000 (omega arith)
      (unfold handled set_handler new in refl)

-- Two managers, of which the first is deactivated when it is no longer the active one.
abbrev swap : List Change
swap = on 1000 ∷ on 2000 ∷ off 1000 ∷ []

abbrev none_active : Active
none_active = record { active_interrupt_manager = 0; events = [] }

none_active-InStep : InStep none_active
unfolding enabled
none_active-InStep = refl

changes-InStep_example :
    InStep (changes swap none_active)
    × ((changes swap none_active).active_interrupt_manager ≡ holder swap 0)
changes-InStep_example = changes-InStep swap none_active (omega arith) none_active-InStep
