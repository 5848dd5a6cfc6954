-- ===== src/Interrupts/Activation.antt =====
-- Interrupts are enabled exactly while a manager is active.
use a_simple_microkernel.Prelude.{
  ◌≡◌, ◌≢◌, refl, Bool, true, false, not, List, [], ◌∷◌, arith, ◌==◌, if◌then◌else◌, ne→==,
}
use a_simple_microkernel.Store.{Ptr, null}
use a_simple_microkernel.Ports.{Event, outb, outb_slow, outw, outl, int, sti, cli}
use a_simple_microkernel.Interrupts.{Active, activate, deactivate}

-- Whether the CPU takes interrupts, after what it was told, the newest first.
unfoldable pub enabled : List Event → Bool
enabled [] = false
enabled (sti ∷ es) = true
enabled (cli ∷ es) = false
enabled (int n ∷ es) = enabled es
enabled (outb p v ∷ es) = enabled es
enabled (outb_slow p v ∷ es) = enabled es
enabled (outw p v ∷ es) = enabled es
enabled (outl p v ∷ es) = enabled es

-- What is done to the managers: `activate`, and `deactivate`, which the destructor calls too.
pub data Change : Type 0 where
  on off : Ptr → Change

unfoldable pub change : Change → Active → Active
change (on this) w = activate this w
change (off this) w = deactivate this w

unfoldable pub changes : List Change → Active → Active
changes [] w = w
changes (c ∷ cs) w = changes cs (change c w)

-- Managers are objects, so none is at the null address.
abbrev pub Objects : List Change → Type 0
Objects [] = Unit
Objects (on this ∷ cs) = (this ≢ null) × Objects cs
Objects (off this ∷ cs) = (this ≢ null) × Objects cs

-- The manager that is active by the calls alone: the one activated last, unless it was deactivated
-- since.
unfoldable pub holder : List Change → Ptr → Ptr
holder [] p = p
holder (on this ∷ cs) p = holder cs this
holder (off this ∷ cs) p = holder cs (if p == this then null else p)

abbrev pub InStep : Active → Type 0
InStep w = enabled w.events ≡ not (w.active_interrupt_manager == null)

activate-InStep : (this : Ptr) (w : Active) → this ≢ null → InStep (activate this w)
unfolding activate enabled
activate-InStep this w ne = rw (ne→== this 0 ne)

deactivate-InStep : (this : Ptr) (w : Active) → InStep w → InStep (deactivate this w)
unfolding deactivate enabled
deactivate-InStep this w h = ground arith

deactivate-active :
    (this : Ptr) (w : Active)
    → (deactivate this w).active_interrupt_manager
      ≡ (if w.active_interrupt_manager == this then null else w.active_interrupt_manager)
unfolding deactivate
deactivate-active this w = ground arith

-- After any calls of `activate` and `deactivate` on managers, the destructor's included, the active
-- manager is the one activated last, if it was not deactivated since, and the CPU takes interrupts
-- exactly if there is an active manager.
pub changes-InStep :
    (cs : List Change) (w : Active)
    → Objects cs
    → InStep w
    → InStep (changes cs w)
      × ((changes cs w).active_interrupt_manager ≡ holder cs w.active_interrupt_manager)
unfolding changes change holder activate
changes-InStep [] w o h = (h, refl)
changes-InStep (on this ∷ cs) w (ne, o) h =
    changes-InStep cs (activate this w) o (activate-InStep this w ne)
changes-InStep (off this ∷ cs) w (ne, o) h =
    rw (← deactivate-active this w)
      (changes-InStep cs (deactivate this w) o (deactivate-InStep this w h))
