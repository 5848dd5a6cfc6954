-- ===== src/Mouse/Cursor.antt =====
-- The cursor of the mouse: where packets move it, and that it leaves the screen as it was.
use a_simple_microkernel.Prelude.{
  ℕ, ◌+◌, ◌-◌, ◌*◌, ◌/◌, ◌%◌, ◌^◌, ◌≤◌, ◌<◌, ◌≡◌, ◌≢◌, refl, sym, ◌∙◌, false, Option, some, arith,
  ◌⊎◌, inl, inr, ℕ_discrete, eq→==, ne→==, Bool-cases, not, ◌||◌, ◌==◌, ap, ◌>>=◌, subst,
}
use a_simple_microkernel.Store.{Ptr}
use a_simple_microkernel.Screen.{set_cell}
use a_simple_microkernel.ProcessManager.{ProcessManager}
use a_simple_microkernel.Mouse.{
  MouseDriver, invert, invert_at, clamp, move, pressed, packet, handle_interrupt,
}

-- The cursor is on the screen.
abbrev pub IsValid : MouseDriver → Type 0
IsValid m = (m.x < 80) × (m.y < 25)

-- The screen shows `base` but for the cursor's cell, whose colours are changed over.
abbrev pub Shown : (ℕ → ℕ) → (ℕ → ℕ) → (x y : ℕ) → Type 0
Shown base video x y = (i : ℕ) → video i ≡ invert_at base x y i

invert_twice : (cell : ℕ) → cell < 2 ^ 16 → invert (invert cell) ≡ cell
unfolding invert
invert_twice cell h = omega arith

clamp-lt : (limit v : ℕ) → 0 < limit → clamp limit v < limit
unfolding clamp
clamp-lt limit v h = ground arith

invert_at_self :
    (video : ℕ → ℕ) (x y : ℕ) → invert_at video x y (80 * y + x) ≡ invert (video (80 * y + x))
unfolding invert_at set_cell
invert_at_self video x y = rw (eq→== (80 * y + x) (80 * y + x) refl)

invert_at_ne : (video : ℕ → ℕ) (x y i : ℕ) → i ≢ 80 * y + x → invert_at video x y i ≡ video i
unfolding invert_at set_cell
invert_at_ne video x y i h = rw (ne→== i (80 * y + x) h)

module _ (base video : ℕ → ℕ) (x y : ℕ) (shown : Shown base video x y)
    (cells : (i : ℕ) → base i < 2 ^ 16) where
  -- Changing the colours over once more restores the screen.
  restored : (i : ℕ) → invert_at video x y i ≡ base i
  restored i = elim (ℕ_discrete i (80 * y + x)) [
    | yes e ↦ rw e (
        invert_at_self video x y
        ∙ ap invert (shown (80 * y + x) ∙ invert_at_self base x y)
        ∙ invert_twice (base (80 * y + x)) (cells (80 * y + x)))
    | no ne ↦ invert_at_ne video x y i ne ∙ shown i ∙ invert_at_ne base x y i ne
  ]

  moved : (x' y' : ℕ) → Shown base (invert_at (invert_at video x y) x' y') x' y'
  moved x' y' i = elim (ℕ_discrete i (80 * y' + x')) [
    | yes e ↦ rw e (
        invert_at_self (invert_at video x y) x' y'
        ∙ ap invert (restored (80 * y' + x'))
        ∙ sym (invert_at_self base x' y'))
    | no ne ↦
        invert_at_ne (invert_at video x y) x' y' i ne
        ∙ restored i
        ∙ sym (invert_at_ne base x' y' i ne)
  ]

-- The driver between two packets.
abbrev pub at_rest : (ℕ → ℕ) → (buttons x y : ℕ) → MouseDriver
at_rest buffer buttons x y = record { buffer = buffer; offset = 0; buttons = buttons; x = x; y = y }

-- The bytes of a packet as the driver has stored them.
abbrev stored : (ℕ → ℕ) → (a b c : ℕ) → ℕ → ℕ
stored buffer a b c = set_cell (set_cell (set_cell buffer 0 a) 1 b) 2 c

-- The three interrupts of a packet, `a` and the displacements `b` and `c`.
unfoldable pub receive :
    ℕ
    → MouseDriver
    → ProcessManager
    → (status a b c : ℕ) → Ptr
    → Option (Ptr × MouseDriver × ProcessManager)
receive fuel m p status a b c esp = handle_interrupt fuel m p status a esp >>= λ (esp1, m1, p1).
    handle_interrupt fuel m1 p1 status b esp1 >>= λ (esp2, m2, p2).
    handle_interrupt fuel m2 p2 status c esp2

-- A coordinate `v` below `limit` becomes `v'` on a displacement `d`, a signed byte: the sum where that
-- is on the screen, the last place where it is beyond it but is still a signed byte, and the first
-- place where it is negative and also where it is 128 or more.
abbrev pub Step : (limit v d v' : ℕ) → Type 0
Step limit v d v' =
    ((d < 128) × (v + d < limit) × (v' ≡ v + d))
    ⊎ (((d < 128) × (limit ≤ v + d) × (v + d < 128) × (v' + 1 ≡ limit))
        ⊎ (((d < 128) × (128 ≤ v + d) × (v' ≡ 0))
            ⊎ (((128 ≤ d) × (v + d < 256) × (v' ≡ 0))
                ⊎ ((128 ≤ d) × (256 ≤ v + d) × (v' + 256 ≡ v + d)))))

clamp-Step :
    (limit v d : ℕ)
    → 0 < limit
    → limit ≤ 80
    → v < limit
    → d < 256
    → Step limit v d (clamp limit ((v + d) % 256))
unfolding clamp
clamp-Step limit v d pos_ le lt byte = ground arith

receive-packet :
    (fuel : ℕ) (buffer : ℕ → ℕ) (buttons x y : ℕ) (p : ProcessManager) (status a b c : ℕ)
    (esp : Ptr)
    → status / 0x20 % 2 ≢ 0
    → receive fuel (at_rest buffer buttons x y) p status a b c esp
      ≡ packet fuel (at_rest (stored buffer a b c) buttons x y) p esp
unfolding receive handle_interrupt
receive-packet fuel buffer buttons x y p status a b c esp h = rw (ne→== (status / 0x20 % 2) 0 h)

-- The colours of every cell fit its sixteen bits.
abbrev pub Cells : (ℕ → ℕ) → Type 0
Cells base = (i : ℕ) → base i < 2 ^ 16

-- Where a packet with the displacements `b` to the right and `c` upwards has moved the cursor to.
pub record Moved (base : ℕ → ℕ) (x y b c x' y' : ℕ) (video : ℕ → ℕ) : Type 0 where
  pub right : Step 80 x b x'
  pub up : Step 25 y ((256 - c) % 256) y'
  pub shown : Shown base video x' y'
  pub valid : (x' < 80) × (y' < 25)

still : (b c : ℕ) → (not (b == 0) || not (c == 0)) ≡ false → (b ≡ 0) × (c ≡ 0)
still b c h = ground arith

module _ (base : ℕ → ℕ) (m : MouseDriver) (video : ℕ → ℕ) (v : IsValid m) (cells : Cells base)
    (shown : Shown base video m.x m.y) (byte : (m.buffer 1 < 256) × (m.buffer 2 < 256)) where
  abbrev b : ℕ
  b = m.buffer 1

  abbrev c : ℕ
  c = m.buffer 2

  up-Step : Step 25 m.y ((256 - c) % 256) (clamp 25 ((m.y + 256 - c) % 256))
  up-Step =
      let e : (m.y + (256 - c) % 256) % 256 ≡ (m.y + 256 - c) % 256 = omega arith in
      subst (λ t. Step 25 m.y ((256 - c) % 256) (clamp 25 t)) e
        (clamp-Step 25 m.y ((256 - c) % 256) (omega arith) (omega arith) v.1 (omega arith))

  move-Moved : Moved base m.x m.y b c (move m video).0.x (move m video).0.y (move m video).1
  unfolding move
  move-Moved = elim (Bool-cases (not (b == 0) || not (c == 0))) [
    | inl e ↦ rw e (record {
      right = clamp-Step 80 m.x b (omega arith) (omega arith) v.0 byte.0;
      up = up-Step;
      shown =
          moved base video m.x m.y shown cells (clamp 80 ((m.x + b) % 256))
            (clamp 25 ((m.y + 256 - c) % 256));
      valid = (
        clamp-lt 80 ((m.x + b) % 256) (omega arith),
        clamp-lt 25 ((m.y + 256 - c) % 256) (omega arith),
      );
    })
    | inr e ↦
        let (zb, zc) = still b c e in
        rw e (record { right = omega arith; up = omega arith; shown = shown; valid = v })
  ]

  move-buttons :
      ((move m video).0.buffer ≡ m.buffer)
      × ((move m video).0.buttons ≡ m.buttons)
      × ((move m video).0.offset ≡ m.offset)
  unfolding move
  move-buttons = elim (Bool-cases (not (b == 0) || not (c == 0))) [
    | inl e ↦ rw e (refl, refl, refl)
    | inr e ↦ rw e (refl, refl, refl)
  ]

-- Between two packets, with the cursor on the screen and shown there, a packet of the mouse that
-- presses no button is taken in by three interrupts that return the state they were given. The
-- cursor moves by its displacements, in the way that `Step` says, and stays on the screen; the
-- screen shows what it showed, but for the cursor's cell at its new place; the buttons are those
-- of the packet.
pub receive-Moved :
    (fuel : ℕ) (base buffer : ℕ → ℕ) (buttons x y : ℕ) (p : ProcessManager) (status a b c : ℕ)
    (esp : Ptr)
    → status / 0x20 % 2 ≢ 0
    → pressed a buttons ≡ false
    → (x < 80) × (y < 25)
    → (b < 256) × (c < 256)
    → Cells base
    → Shown base p.screen.video x y
    → (m' : MouseDriver) × (p' : ProcessManager) × (receive fuel
          (at_rest buffer buttons x y)
          p
          status
          a
          b
          c
          esp
        ≡ some (esp, m', p'))
      × Moved base x y b c m'.x m'.y p'.screen.video
      × (m'.buttons ≡ a)
      × (m'.offset ≡ 0)
unfolding packet set_cell
receive-Moved fuel base buffer buttons x y p status a b c esp up_ quiet on byte cells shown =
    let m = at_rest (stored buffer a b c) buttons x y in
    let (sb, sp, so) = move-buttons base m p.screen.video on cells shown byte in
    let (m', video) = move m p.screen.video in
    (
      record m' { buttons = m'.buffer 0 },
      record p { screen = record p.screen { video = video } },
      receive-packet fuel buffer buttons x y p status a b c esp up_ ∙ rw (sb, sp, quiet) refl,
      move-Moved base m p.screen.video on cells shown byte,
      ap (λ f. f 0) sb,
      so,
    )
