-- ===== src/Machine/Reach.antt =====
-- The machine as a state machine: interrupts, and what the processes and devices do between them.
use a_simple_microkernel.Prelude.{
  ℕ, ◌+◌, ◌<◌, ◌≡◌, ◌≢◌, refl, sym, ap₂, subst, ◌∙◌, Option, none, some, ◌==◌, if◌then◌else◌, ◌⊎◌,
  inl, inr, Bool-cases, ne→==, arith,
}
use mathlib.Core.Option.{some-injective}
use a_simple_microkernel.Store.{Ptr, null, load32}
use a_simple_microkernel.Ports.{Device}
use a_simple_microkernel.Ports.Port8Bit
use a_simple_microkernel.ProcessManager
use a_simple_microkernel.ProcessManager.{ProcessManager}
use a_simple_microkernel.Keyboard
use a_simple_microkernel.Mouse
use a_simple_microkernel.Mouse.{bit}
use a_simple_microkernel.Interrupts
use a_simple_microkernel.Interrupts.{
  Handler, InterruptManager, World, handled, report, acknowledge, set_handler,
}
use a_simple_microkernel.Boot.{handlers}
use a_simple_microkernel.Machine.{
  Machine, kernel_of, with_manager, key_interrupt, mouse_interrupt, call, interrupt,
}
use a_simple_microkernel.Machine.Live.{
  Live, Live-screen, Live-mem, Outcome, Left, Left-screen, shown-Left, key-Left, mouse-Left,
}

-- The vectors without an object, and those whose object is not the kernel.
handlers-cases :
    (v : ℕ)
    → v ≢ 0x80
    → (handlers.handlers v ≡ none)
      ⊎ ((h : Handler) × (handlers.handlers v ≡ some h) × (h ≢ Handler.kernel))
unfolding handlers
handlers-cases v ne = rw (ne→== v 0x80 ne) (elim (Bool-cases (v == 0x2C)) [
  | inl e ↦ rw e (inr (Handler.mouse, refl, λ p. cc))
  | inr e ↦ rw e (elim (Bool-cases (v == 0x21)) [
    | inl f ↦ rw f (inr (Handler.keyboard, refl, λ p. cc))
    | inr f ↦ rw f (elim (Bool-cases (v == 0x20)) [
      | inl g ↦ rw g (inr (Handler.process_manager, refl, λ p. cc))
      | inr g ↦ rw g (inl refl)
    ])
  ])
])

module _ {S : Type 0} where
  -- The process table with the memory and the screen of the world.
  abbrev pub table : World (Machine S) → ProcessManager
  table w = (kernel_of w).process_manager

  abbrev LeftBy : Ptr → World (Machine S) → Option (Ptr × World (Machine S)) → Type 0
  LeftBy esp w o =
      (r : Ptr × World (Machine S)) × (o ≡ some r) × Left esp (table w) (r.0, table r.1)

  module _ (d : Device S) (esp : Ptr) (w : World (Machine S)) (l : Live (table w)) where
    key_interrupt-Left : LeftBy esp w (key_interrupt d 256 w esp)
    unfolding key_interrupt
    key_interrupt-Left =
        let (key, s) = Port8Bit.read d Keyboard.data_port w.objects.devices in
        let (r, run, left) =
          key-Left esp (record { input = w.objects.input; manager = table w }) l key in
        let w' = with_manager w r.1.manager in
        (
          (r.0, record w' { objects = record w'.objects { input = r.1.input; devices = s } }),
          rw run refl,
          left,
        )

    mouse_interrupt-Left : LeftBy esp w (mouse_interrupt d 256 w esp)
    unfolding mouse_interrupt
    mouse_interrupt-Left =
        let (status, s1) = Port8Bit.read d Mouse.command_port w.objects.devices in
        let (byte, s2) = Port8Bit.read d Mouse.data_port s1 in
        let s = if bit status 0x20 == 0 then s1 else s2 in
        let (r, run, left) = mouse-Left esp w.objects.mouse (table w) status byte l in
        let w' = with_manager w r.2 in
        (
          (r.0, record w' { objects = record w'.objects { mouse = r.1; devices = s } }),
          rw run refl,
          left,
        )

    call-Left : (h : Handler) → h ≢ Handler.kernel → LeftBy esp w (call d 256 h w esp)
    unfolding call ProcessManager.handle_interrupt
    call-Left Handler.process_manager ne =
        ((esp, with_manager w (table w)), refl, shown-Left esp (table w) w.screen l)
    call-Left Handler.keyboard ne = key_interrupt-Left
    call-Left Handler.mouse ne = mouse_interrupt-Left
    call-Left Handler.kernel ne = absurd (ne refl)

  -- The messages and the acknowledgement leave the memory and the objects.
  pub ended :
      (m : InterruptManager) (v : ℕ) (w : World (Machine S)) (esp : Ptr)
      → let w' = acknowledge m v (report v w esp) in (w'.mem ≡ w.mem) × (w'.objects ≡ w.objects)
  unfolding acknowledge report
  ended m v w esp = ground arith

  Left-ended :
      (esp f : Ptr) (s : ProcessManager) (w w' : World (Machine S))
      → w'.mem ≡ w.mem
      → w'.objects ≡ w.objects
      → Left esp s (f, table w)
      → Left esp s (f, table w')
  Left-ended esp f s w w' p q l =
      subst (λ t. Left esp s (f, t))
        (ap₂ (λ m o. record o.kernel.process_manager { mem = m; screen = w'.screen }) (sym p)
          (sym q))
        (Left-screen esp f s (table w) w'.screen l)

  handled-Left :
      (d : Device S) (v : ℕ) (esp : Ptr) (w : World (Machine S))
      → v ≢ 0x80
      → Live (table w)
      → LeftBy esp w (handled (call d 256) handlers v w esp)
  unfolding handled
  handled-Left d v esp w ne l = elim (handlers-cases v ne) [
    | inr (h, e, other) ↦ rw (handled, e) (call-Left d esp w l h other)
    | inl e ↦
        rw (handled, e)
          (elim (Bool-cases (v == handlers.hardware_interrupt_offset)) [
            | inl f ↦ rw f ((esp, w), refl, shown-Left esp (table w) w.screen l)
            | inr f ↦ rw f ((esp, _), refl, shown-Left esp (table w) _ l)
          ])
  ]

  -- An interrupt of any vector but that of the system calls.
  interrupt-Left :
      (d : Device S) (v : ℕ) (esp : Ptr) (w : World (Machine S))
      → v ≢ 0x80
      → Live (table w)
      → LeftBy esp w (interrupt d 256 handlers v w esp)
  unfolding interrupt Interrupts.handle_interrupt handled
  interrupt-Left d v esp w ne l =
      let (r, run, left) = handled-Left d v esp w ne l in
      let w' = acknowledge handlers v (report v r.1 r.0) in
      let same = ended handlers v r.1 r.0 in
      ((r.0, w'), rw run refl, Left-ended esp r.0 (table w) r.1 w' same.0 same.1 left)

  -- What happens between two interrupts: the process in execution and the devices change what they
  -- like, but not the table and no process's state.
  pub record Own (w w' : World (Machine S)) : Type 0 where
    pub kernel : w'.objects.kernel ≡ w.objects.kernel
    pub states :
        (k : ℕ)
        → k < 256
        → (table w).slots k ≢ null
        → load32 w'.mem ((table w).slots k + 20) ≡ load32 w.mem ((table w).slots k + 20)

  Own-Live : (w w' : World (Machine S)) → Own w w' → Live (table w) → Live (table w')
  Own-Live w w' o l =
      subst (λ k. Live (record k.process_manager { mem = w'.mem; screen = w'.screen }))
        (sym o.kernel)
        (Live-screen (record (table w) { mem = w'.mem }) w'.screen
          (Live-mem (table w) w'.mem o.states l))

  module _ (d : Device S) where
    pub data Step : World (Machine S) → World (Machine S) → Type 0 where
      irq :
          {w w' : World (Machine S)} (v : ℕ) (esp esp' : Ptr)
          → v ≢ 0x80
          → interrupt d 256 handlers v w esp ≡ some (esp', w')
          → Step w w'
      own : {w w' : World (Machine S)} → Own w w' → Step w w'

    pub data Reach (w : World (Machine S)) : World (Machine S) → Type 0 where
      here : Reach w w
      next : {w' w'' : World (Machine S)} → Reach w w' → Step w' w'' → Reach w w''

    irq-Live :
        (w w' : World (Machine S)) (v : ℕ) (esp esp' : Ptr)
        → v ≢ 0x80
        → interrupt d 256 handlers v w esp ≡ some (esp', w')
        → Live (table w)
        → Live (table w')
    irq-Live w w' v esp esp' ne run l =
        let (r, run', left) = interrupt-Left d v esp w ne l in
        let same : r ≡ (esp', w') = some-injective r (esp', w') (sym run' ∙ run) in
        subst (λ p. Live (table p.1)) same left.live

    Step-Live : {w w' : World (Machine S)} → Step w w' → Live (table w) → Live (table w')
    Step-Live {w} {w'} (irq v esp esp' ne run) l = irq-Live w w' v esp esp' ne run l
    Step-Live {w} {w'} (own o) l = Own-Live w w' o l

    Reach-Live : {w w' : World (Machine S)} → Reach w w' → Live (table w) → Live (table w')
    Reach-Live here l = l
    Reach-Live (next r s) l = Step-Live s (Reach-Live r l)

    -- From a machine whose table is valid and has a process that is ready or in execution, whatever
    -- interrupts of vectors other than that of the system calls come, and whatever the processes and
    -- devices do between them that leaves the table and the states of the processes, the next such
    -- interrupt returns. Either it returns the state it was given and leaves the table and the memory,
    -- or it saves the process in execution and returns the state of the first process ready, going
    -- round. The table is valid again and has such a process.
    pub interrupts-Live :
        (w w' : World (Machine S)) (v : ℕ) (esp : Ptr)
        → Live (table w)
        → Reach w w'
        → v ≢ 0x80
        → (r : Ptr × World (Machine S)) × (interrupt d 256 handlers v w' esp ≡ some r)
          × Live (table r.1)
          × Outcome esp (table w') (r.0, table r.1)
    interrupts-Live w w' v esp l reached ne =
        let (r, run, left) = interrupt-Left d v esp w' ne (Reach-Live reached l) in
        (r, run, left.live, left.outcome)
