-- ===== src/Keyboard/Start.antt =====
-- The constructor of the keyboard driver, on a keyboard controller.
use a_simple_microkernel.Prelude.{
  ℕ, zero, suc, ◌-◌, ◌*◌, ◌/◌, ◌%◌, ◌^◌, ◌<◌, ◌≡◌, refl, ◌∙◌, ap, Bool, true, some, List, [], ◌∷◌,
  length, arith,
}
use a_simple_microkernel.Ports.{Event, Device, outb}
use a_simple_microkernel.Ports
use a_simple_microkernel.Ports.Port8Bit
use a_simple_microkernel.Keyboard.{enable_keyboard, drain, configure, start}

-- What the constructor relies on of the controller, as its data sheet describes it. It has the bytes
-- that wait to be read and a configuration byte, and it is idle unless a command waits for its
-- operand. Bit 0 of the status at port 0x64 tells whether a byte waits, and port 0x60 gives the first
-- one. Command 0xAE enables the keyboard, which clears bit 4 of the configuration; command 0x20 asks
-- for the configuration, and 0x60 takes it from the next byte. 0xF4 is for the keyboard.
pub record Controller {S : Type 0} (d : Device S) : Type 0 where
  pub pending : S → List ℕ
  pub config : S → ℕ
  pub idle : S → Bool
  pub byte : (s : S) → config s < 256
  pub status_full :
      (s : S) (b : ℕ) (bs : List ℕ) → pending s ≡ b ∷ bs → (d.inb 0x64 s).0 % 256 % 2 ≡ 1
  pub status_empty : (s : S) → pending s ≡ [] → (d.inb 0x64 s).0 % 256 % 2 ≡ 0
  pub status_kept :
      (s : S)
      → (pending (d.inb 0x64 s).1 ≡ pending s)
        × (config (d.inb 0x64 s).1 ≡ config s)
        × (idle (d.inb 0x64 s).1 ≡ idle s)
  pub data_read :
      (s : S) (b : ℕ) (bs : List ℕ)
      → pending s ≡ b ∷ bs
      → ((d.inb 0x60 s).0 ≡ b)
        × (pending (d.inb 0x60 s).1 ≡ bs)
        × (config (d.inb 0x60 s).1 ≡ config s)
        × (idle (d.inb 0x60 s).1 ≡ idle s)
  pub enable :
      (s : S)
      → idle s ≡ true
      → let s' = d.out (outb 0x64 0xAE) s in
        (pending s' ≡ pending s)
        × (config s' ≡ config s - config s / 16 % 2 * 16)
        × (idle s' ≡ true)
  pub read_config :
      (s : S)
      → idle s ≡ true
      → pending s ≡ []
      → let s' = d.out (outb 0x64 0x20) s in
        (pending s' ≡ config s ∷ []) × (config s' ≡ config s) × (idle s' ≡ true)
  pub write_config :
      (s : S) (v : ℕ)
      → idle s ≡ true
      → v < 256
      → let s' = d.out (outb 0x60 v) (d.out (outb 0x64 0x60) s) in
        (config s' ≡ v) × (idle s' ≡ true)
  pub keyboard_command : (s : S) → idle s ≡ true → config (d.out (outb 0x60 0xF4) s) ≡ config s

enable-lt : (v : ℕ) → v < 256 → enable_keyboard v % 2 ^ 8 ≡ enable_keyboard v
unfolding enable_keyboard
enable-lt v h = omega arith

module _ {S : Type 0} (d : Device S) (c : Controller d) where
  open c use {pending, config, idle}

  -- The loop ends once it has read the bytes that wait.
  drain-empty :
      (bs : List ℕ) (fuel : ℕ) (s : S)
      → pending s ≡ bs
      → length bs < fuel
      → (s' : S) × (drain d fuel s ≡ some s')
        × (pending s' ≡ [])
        × (config s' ≡ config s)
        × (idle s' ≡ idle s)
  unfolding drain Ports.read8 Ports.new Port8Bit.read Port8Bit.new
  drain-empty bs zero s e h = absurd (omega arith)
  drain-empty [] (suc fuel) s e h =
      let k = c.status_kept s in ((d.inb 0x64 s).1, rw (c.status_empty s e), k.0 ∙ e, k.1, k.2)
  drain-empty (b ∷ bs) (suc fuel) s e h =
      let k = c.status_kept s in
      let s1 = (d.inb 0x64 s).1 in
      let r = c.data_read s1 b bs (k.0 ∙ e) in
      let (s', run, none_left, same, quiet) =
        drain-empty bs fuel (d.inb 0x60 s1).1 r.1 (omega arith) in
      (s', rw (c.status_full s b bs e) run, none_left, same ∙ r.2 ∙ k.1, quiet ∙ r.3 ∙ k.2)

  configure-config :
      (s : S)
      → pending s ≡ []
      → idle s ≡ true
      → config (configure d s) ≡ enable_keyboard (config s - config s / 16 % 2 * 16)
  unfolding configure Ports.read8 Ports.write8 Ports.new Port8Bit.read Port8Bit.write Port8Bit.new
  configure-config s e i =
      let s1 = d.out (outb 0x64 0xAE) s in
      let on = c.enable s i in
      let s2 = d.out (outb 0x64 0x20) s1 in
      let asked = c.read_config s1 on.2 (on.0 ∙ e) in
      let got = c.data_read s2 (config s1) [] asked.0 in
      let s3 = (d.inb 0x60 s2).1 in
      let value = enable_keyboard ((d.inb 0x60 s2).0 % 2 ^ 8) % 2 ^ 8 in
      let set = c.write_config s3 value (got.3 ∙ asked.2) (omega arith) in
      let same : (d.inb 0x60 s2).0 % 2 ^ 8 ≡ config s - config s / 16 % 2 * 16 =
        omega (arith, got.0, on.1, c.byte s) in
      c.keyboard_command (d.out (outb 0x60 value) (d.out (outb 0x64 0x60) s3)) set.1
      ∙ set.0
      ∙ ap (λ v. enable_keyboard v % 2 ^ 8) same
      ∙ enable-lt (config s - config s / 16 % 2 * 16) (omega (arith, c.byte s))

  -- The constructor of `KeyboardDriver` ends on any controller that is idle and in which fewer bytes
  -- wait than the fuel. The keyboard's interrupts are then enabled and its clock runs, bits 0 and 4 of
  -- the configuration; the other bits are as they were.
  pub start-Enabled :
      (fuel : ℕ) (s : S)
      → idle s ≡ true
      → length (pending s) < fuel
      → (s' : S) × (start d fuel s ≡ some s')
        × (config s' % 2 ≡ 1)
        × (config s' / 16 % 2 ≡ 0)
        × (config s' / 2 % 8 ≡ config s / 2 % 8)
        × (config s' / 32 ≡ config s / 32)
  unfolding start enable_keyboard
  start-Enabled fuel s i h =
      let (s1, run, none_left, same, quiet) = drain-empty (pending s) fuel s refl h in
      let e = configure-config s1 none_left (quiet ∙ i) in
      (configure d s1, rw run, omega arith, omega arith, omega arith, omega arith)
