-- ===== src/Machine/Typed.antt =====
-- Keys pressed at the keyboard, through the interrupts and the ports, to the line in the buffer.
use a_simple_microkernel.Prelude.{
  ℕ, zero, suc, ◌%◌, ◌^◌, ◌<◌, ◌≡◌, ◌≢◌, refl, sym, ap, subst, ◌∙◌, some, List, [], ◌∷◌, length,
  arith, All,
}
use a_simple_microkernel.Store.{Ptr}
use a_simple_microkernel.Ports
use a_simple_microkernel.Ports.{Event, Device, outb_slow}
use a_simple_microkernel.Ports.Port8Bit
use a_simple_microkernel.Keyboard.Editing.{Line, edit, edits, Refines, handle_interrupt-Refines}
use a_simple_microkernel.Interrupts.{InterruptManager, World, handled}
use a_simple_microkernel.Interrupts.Dispatch.{needed, handle_interrupt-acknowledged}
use a_simple_microkernel.Boot.Run.{Connected}
use a_simple_microkernel.Machine.{
  Machine, kernel_of, with_manager, key_interrupt, call, interrupt, typed,
}

-- What the driver relies on of the controller: the scan codes of the keys wait at port 0x60, and each
-- read takes one.
pub record Scans {S : Type 0} (d : Device S) : Type 0 where
  pub codes : S → List ℕ
  pub small : (s : S) (b : ℕ) (bs : List ℕ) → codes s ≡ b ∷ bs → b < 256
  pub code_read :
      (s : S) (b : ℕ) (bs : List ℕ)
      → codes s ≡ b ∷ bs
      → ((d.inb 0x60 s).0 ≡ b) × (codes (d.inb 0x60 s).1 ≡ bs)

-- What the CPU was told, `es`, after `n` more acknowledgements at the first controller.
abbrev pub acknowledged : ℕ → List Event → List Event
acknowledged zero es = es
acknowledged (suc n) es = acknowledged n (outb_slow 0x20 0x20 ∷ es)

module _ {S : Type 0} (d : Device S) (c : Scans d) (fuel : ℕ) (m : InterruptManager)
    (n : Connected m) where
  key_interrupt-Refines :
      (w : World (Machine S)) (esp : Ptr) (key : ℕ) (ks : List ℕ) (t : Line)
      → c.codes w.objects.devices ≡ key ∷ ks
      → key ≢ 0x0F
      → Refines w.objects.input t
      → (w' : World (Machine S)) × (key_interrupt d fuel w esp ≡ some (esp, w'))
        × Refines w'.objects.input (edit key t)
        × (c.codes w'.objects.devices ≡ ks)
        × (w'.events ≡ w.events)
  unfolding key_interrupt Port8Bit.read Ports.read8 Port8Bit.new Ports.new
  key_interrupt-Refines w esp key ks t e ne r =
      let (read, left) = c.code_read w.objects.devices key ks e in
      let byte : (d.inb 0x60 w.objects.devices).0 % 2 ^ 8 ≡ key =
        omega (arith, read, c.small w.objects.devices key ks e) in
      let (c', run, r') =
        handle_interrupt-Refines fuel esp
          (record { input = w.objects.input; manager = (kernel_of w).process_manager }) t key ne
          r in
      (
        (let w' = with_manager w c'.manager in
            record w' {
              objects = record w'.objects {
                input = c'.input;
                devices = (d.inb 0x60 w.objects.devices).1;
              };
            }),
        rw (byte, run) refl,
        r',
        left,
        refl,
      )

  handled-key :
      (w : World (Machine S)) (esp : Ptr)
      → handled (call d fuel) m 0x21 w esp ≡ key_interrupt d fuel w esp
  unfolding handled call
  handled-key w esp = rw (handled, n.keyboard) refl

  -- One interrupt of the keyboard.
  interrupt-Refines :
      (w : World (Machine S)) (esp : Ptr) (key : ℕ) (ks : List ℕ) (t : Line)
      → c.codes w.objects.devices ≡ key ∷ ks
      → key ≢ 0x0F
      → Refines w.objects.input t
      → (w' : World (Machine S)) × (interrupt d fuel m 0x21 w esp ≡ some (esp, w'))
        × Refines w'.objects.input (edit key t)
        × (c.codes w'.objects.devices ≡ ks)
        × (w'.events ≡ outb_slow 0x20 0x20 ∷ w.events)
  unfolding interrupt
  interrupt-Refines w esp key ks t e ne r =
      let (w1, run, r1, left, same) = key_interrupt-Refines w esp key ks t e ne r in
      let (w2, done, told, kept) =
        handle_interrupt-acknowledged (call d fuel) m 0x21 w w1 esp esp (omega arith)
          (handled-key w esp ∙ run) in
      let one : needed m.hardware_interrupt_offset 0x21 ≡ outb_slow 0x20 0x20 ∷ [] =
        rw n.offset (unfold needed in refl) in
      (
        w2,
        done,
        subst (λ o. Refines o.input (edit key t)) (sym kept) r1,
        ap (λ o. c.codes o.devices) kept ∙ left,
        told ∙ rw (one, same) refl,
      )

  -- While the scan codes of keys other than tab wait at the controller, the interrupts of the keyboard
  -- go through the manager to the driver, which reads the codes from its port, one for each. Every
  -- interrupt returns the state that it was given and is acknowledged once, at the first controller,
  -- and the buffer stands for the line that the keys edit: a typed byte goes to the end while there
  -- are fewer than 256, backspace takes the last one away, if there is one, and enter adds a null
  -- and marks the line entered.
  pub typed-Refines :
      (ks : List ℕ) (w : World (Machine S)) (esp : Ptr) (t : Line)
      → c.codes w.objects.devices ≡ ks
      → All (λ key. key ≢ 0x0F) ks
      → Refines w.objects.input t
      → (w' : World (Machine S)) × (typed d fuel (length ks) m w esp ≡ some (esp, w'))
        × Refines w'.objects.input (edits ks t)
        × (c.codes w'.objects.devices ≡ [])
        × (w'.events ≡ acknowledged (length ks) w.events)
  unfolding typed edits
  typed-Refines [] w esp t e h r = (w, refl, r, e, refl)
  typed-Refines (key ∷ ks) w esp t e (ne, h) r =
      let (w1, run, r1, left, told) = interrupt-Refines w esp key ks t e ne r in
      let (w2, more, r2, empty, told') = typed-Refines ks w1 esp (edit key t) left h r1 in
      (w2, rw run more, r2, empty, told' ∙ ap (acknowledged (length ks)) told)
