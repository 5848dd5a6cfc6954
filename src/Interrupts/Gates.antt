-- ===== src/Interrupts/Gates.antt =====
-- Where each of the 256 vectors leads once `InterruptManager` is constructed.
use a_simple_microkernel.Prelude.{
  ℕ, zero, suc, ◌+◌, ◌-◌, ◌*◌, ◌/◌, ◌%◌, ◌^◌, ◌≤◌, ◌<◌, ◌≡◌, ◌∙◌, ap, refl, ◌&&◌, arith, ltb, leb,
  ◌==◌, if◌then◌else◌, ℕ_discrete, true, false, eq→==, ne→==, ◌≢◌, Bool-cases, inl, inr,
}
use a_simple_microkernel.Gdt.{get_css}
use a_simple_microkernel.Interrupts.{
  GateDescriptor, Idt, set_idt_entry, Stubs, interrupt_gate, ignore_all, set_gates, gates,
}

-- A present interrupt gate of privilege 0 to a handler in the code segment.
abbrev gate : ℕ → GateDescriptor
gate handler = record {
  handler_addr_lo = handler % 65536;
  gdt_css = get_css;
  reserved = 0;
  access = 0x8E;
  handler_addr_hi = handler / 65536 % 65536;
}

set_idt_entry-gate :
    (idt : Idt) (t h v : ℕ)
    → set_idt_entry idt t get_css h 0 interrupt_gate v ≡ (if v == t % 256 then gate h else idt v)
unfolding set_idt_entry
set_idt_entry-gate idt t h v = refl

ignore_all-gate :
    (stubs : Stubs) (idt : Idt) (i v : ℕ)
    → i < 256
    → ignore_all stubs idt i v ≡ (if leb v i then gate stubs.ignore_interrupt else idt v)
unfolding ignore_all
ignore_all-gate stubs idt zero v h = ground arith
ignore_all-gate stubs idt (suc i) v h =
    ignore_all-gate stubs
      (set_idt_entry idt (suc i) get_css stubs.ignore_interrupt 0 interrupt_gate) i v (omega arith)
    ∙ ground (arith, set_idt_entry-gate idt (suc i) stubs.ignore_interrupt v)

-- The first gate of a row, and the others.
row-step :
    (handler : ℕ → ℕ) (base : ℕ) (idt : Idt) (n k v : ℕ)
    → base + k + suc n ≤ 256
    → (if leb (base + (k + 1)) v && ltb v (base + (k + 1) + n)
        then gate (handler (v - base))
        else set_idt_entry idt (base + k) get_css (handler k) 0 interrupt_gate v)
      ≡ (if leb (base + k) v && ltb v (base + k + suc n) then gate (handler (v - base)) else idt v)
row-step handler base idt n k v h = elim (ℕ_discrete v (base + k)) [
  | yes e ↦
      let inside : (leb (base + k) v && ltb v (base + k + suc n)) ≡ true = ground arith in
      let past : (leb (base + (k + 1)) v && ltb v (base + (k + 1) + n)) ≡ false = ground arith in
      let here : v ≡ (base + k) % 256 = omega arith in
      let place : k ≡ v - base = omega arith in
      rw
        (
          inside,
          past,
          set_idt_entry-gate idt (base + k) (handler k) v,
          eq→== v ((base + k) % 256) here,
        )
        (ap (λ t. gate (handler t)) place)
  | no ne ↦
      let same : (leb (base + (k + 1)) v && ltb v (base + (k + 1) + n))
          ≡ (leb (base + k) v && ltb v (base + k + suc n)) =
        ground arith in
      let other : v ≢ (base + k) % 256 = omega arith in
      rw (same, set_idt_entry-gate idt (base + k) (handler k) v, ne→== v ((base + k) % 256) other)
]

set_gates-gate :
    (handler : ℕ → ℕ) (base : ℕ) (idt : Idt) (n k v : ℕ)
    → base + k + n ≤ 256
    → set_gates handler base idt n k v
      ≡ (if leb (base + k) v && ltb v (base + k + n) then gate (handler (v - base)) else idt v)
unfolding set_gates
set_gates-gate handler base idt zero k v h = ground arith
set_gates-gate handler base idt (suc n) k v h =
    set_gates-gate handler base (set_idt_entry idt (base + k) get_css (handler k) 0 interrupt_gate)
      n (k + 1) v (omega arith)
    ∙ row-step handler base idt n k v h

-- The stub that a vector should lead to.
unfoldable pub expected : Stubs → ℕ → ℕ → ℕ
expected stubs offset v =
    if v == 0x80
    then stubs.handle_interrupt_request_0x80
    else if leb offset v && ltb v (offset + 16)
    then stubs.handle_interrupt_request (v - offset)
    else if ltb v 20
    then stubs.handle_exception v
    else stubs.ignore_interrupt

-- The tests of the rows one by one come to the choice of `expected`.
choose :
    (stubs : Stubs) (idt : Idt) (offset v : ℕ)
    → v < 256
    → (if v == 0x80
        then gate stubs.handle_interrupt_request_0x80
        else if leb (offset + 0) v && ltb v (offset + 0 + 16)
        then gate (stubs.handle_interrupt_request (v - offset))
        else if leb (0 + 0) v && ltb v (0 + 0 + 20)
        then gate (stubs.handle_exception (v - 0))
        else if leb v 255
        then gate stubs.ignore_interrupt
        else idt v)
      ≡ gate (expected stubs offset v)
unfolding expected
choose stubs idt offset v h =
    let all : leb v 255 ≡ true = ground arith in
    let low : leb (0 + 0) v ≡ true = ground arith in
    let zero_off : offset + 0 ≡ offset = omega arith in
    let zero_sub : v - 0 ≡ v = omega arith in
    rw (all, low, zero_off, zero_sub)
      (elim (Bool-cases (v == 0x80)) [
        | inl e ↦ rw e
        | inr e ↦ rw e (elim (Bool-cases (leb offset v && ltb v (offset + 16))) [
          | inl r ↦ rw r
          | inr r ↦ rw r (elim (Bool-cases (ltb v 20)) [ inl x ↦ rw x | inr x ↦ rw x ])
        ])
      ])

gates-gate :
    (stubs : Stubs) (idt : Idt) (offset v : ℕ)
    → 20 ≤ offset
    → offset + 16 ≤ 128
    → v < 256
    → gates stubs idt offset v ≡ gate (expected stubs offset v)
unfolding gates expected
gates-gate stubs idt offset v lo hi h =
    let ignored = ignore_all stubs idt 255 in
    let exceptions = set_gates stubs.handle_exception 0 ignored 20 0 in
    let requests = set_gates stubs.handle_interrupt_request offset exceptions 16 0 in
    set_idt_entry-gate requests 0x80 stubs.handle_interrupt_request_0x80 v
    ∙ ap (λ g. if v == 0x80 then gate stubs.handle_interrupt_request_0x80 else g)
        (set_gates-gate stubs.handle_interrupt_request offset exceptions 16 0 v (omega arith)
          ∙ ap
              (λ g.
                if leb (offset + 0) v && ltb v (offset + 0 + 16)
                then gate (stubs.handle_interrupt_request (v - offset))
                else g)
              (set_gates-gate stubs.handle_exception 0 ignored 20 0 v (omega arith)
                ∙ ap
                    (λ g.
                      if leb (0 + 0) v && ltb v (0 + 0 + 20)
                      then gate (stubs.handle_exception (v - 0))
                      else g)
                    (ignore_all-gate stubs idt 255 v (omega arith))))
    ∙ choose stubs idt offset v h

-- When the hardware vectors stand behind the exceptions and before the system call, every vector
-- leads to the stub that it should: its gate gives back the address of the stub in two halves, and is
-- a present interrupt gate of privilege 0 in the code segment.
pub gates-expected :
    (stubs : Stubs) (idt : Idt) (offset v : ℕ)
    → 20 ≤ offset
    → offset + 16 ≤ 128
    → v < 256
    → expected stubs offset v < 2 ^ 32
    → let g = gates stubs idt offset v in
      (g.handler_addr_lo + 65536 * g.handler_addr_hi ≡ expected stubs offset v)
      × (g.access ≡ 0x8E)
      × (g.gdt_css ≡ get_css)
gates-expected stubs idt offset v lo hi h word =
    rw (gates-gate stubs idt offset v lo hi h) (omega arith, refl, refl)
