-- ===== src/Interrupts/Dispatch.antt =====
-- Which interrupts `InterruptManager::handle_interrupt` acknowledges, and to whom.
use a_simple_microkernel.Prelude.{
  ℕ, ◌+◌, ◌≡◌, ◌≢◌, ap, ◌∙◌, Option, some, List, [], ◌∷◌, ◌++◌, arith, ltb, if◌then◌else◌,
}
use a_simple_microkernel.Store.{Ptr}
use a_simple_microkernel.Ports.{Event, outb_slow}
use a_simple_microkernel.Interrupts.{
  Handler, InterruptManager, World, handled, report, acknowledge, handle_interrupt,
}

-- The end-of-interrupt commands that the controllers need for a vector, the newest first.
unfoldable pub needed : ℕ → ℕ → List Event
needed offset v =
    if ltb v offset
    then []
    else if ltb v (offset + 8)
    then outb_slow 0x20 0x20 ∷ []
    else if ltb v (offset + 16)
    then outb_slow 0xA0 0x20 ∷ outb_slow 0x20 0x20 ∷ []
    else []

module _ {S : Type 0} where
  acknowledge-needed :
      (m : InterruptManager) (v : ℕ) (w : World S)
      → ((acknowledge m v w).events ≡ needed m.hardware_interrupt_offset v ++ w.events)
        × ((acknowledge m v w).objects ≡ w.objects)
  unfolding acknowledge needed
  acknowledge-needed m v w = ground arith

  report-kept :
      (v : ℕ) (w : World S) (esp : Ptr)
      → v ≢ 0x0D
      → ((report v w esp).events ≡ w.events) × ((report v w esp).objects ≡ w.objects)
  unfolding report
  report-kept v w esp ne = ground arith

module _ {S : Type 0} (call : Handler → World S → Ptr → Option (Ptr × World S)) where
  -- An interrupt that is no general protection exception and whose handling returns state `esp'` in
  -- world `w'` returns that state. What it adds to what the CPU was told is the acknowledgement: the
  -- first controller's for its eight vectors, both controllers' for the second one's, and none for
  -- any other vector.
  pub handle_interrupt-acknowledged :
      (m : InterruptManager) (v : ℕ) (w w' : World S) (esp esp' : Ptr)
      → v ≢ 0x0D
      → handled call m v w esp ≡ some (esp', w')
      → (w'' : World S) × (handle_interrupt call m v w esp ≡ some (esp', w''))
        × (w''.events ≡ needed m.hardware_interrupt_offset v ++ w'.events)
        × (w''.objects ≡ w'.objects)
  unfolding handle_interrupt
  handle_interrupt-acknowledged m v w w' esp esp' ne h =
      let a = acknowledge-needed m v (report v w' esp') in
      let r = report-kept v w' esp' ne in
      (
        acknowledge m v (report v w' esp'),
        rw h,
        a.0 ∙ ap (λ es. needed m.hardware_interrupt_offset v ++ es) r.0,
        a.1 ∙ r.1,
      )
