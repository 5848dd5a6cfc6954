-- ===== src/Examples/Pointing.antt =====
-- The mouse at concrete data.
use a_simple_microkernel.Prelude.{ℕ, ◌≡◌, refl, some, arith}
use a_simple_microkernel.ProcessManager.{ProcessManager}
use a_simple_microkernel.Mouse.{MouseDriver, invert_at, pressed}
use a_simple_microkernel.Mouse.Cursor.{at_rest, receive, Moved, receive-Moved}
use a_simple_microkernel.Examples.Scheduling.{table}

abbrev grey : ℕ → ℕ
grey i = 0x0720

-- The process table of the scheduler's examples, with the cursor in the middle of the screen.
abbrev desk : ProcessManager
desk = record table { screen = record table.screen { video = invert_at grey 40 12 } }

-- Ten columns to the left and three rows up, from the middle of the screen.
receive-Moved_example :
    (m' : MouseDriver) × (p' : ProcessManager) × (receive 256
        (at_rest (λ i. 0) 0 40 12)
        desk
        0x21
        0x18
        246
        3
        5000
      ≡ some (5000, m', p'))
    × Moved grey 40 12 246 3 m'.x m'.y p'.screen.video
    × (m'.buttons ≡ 0x18)
    × (m'.offset ≡ 0)
receive-Moved_example =
    receive-Moved 256 grey (λ i. 0) 0 40 12 desk 0x21 0x18 246 3 5000 (omega arith)
      (unfold pressed in refl) (omega arith) (omega arith) (λ i. omega arith) (λ i. refl)
