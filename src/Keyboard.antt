-- ===== src/Keyboard.antt =====
-- The keyboard driver's interrupt handler: src/drivers/keyboard.cpp.
pub mod Editing
pub mod Start
pub mod Typing
use a_simple_microkernel.Prelude.{
  ℕ, zero, suc, ◌+◌, ◌-◌, ◌*◌, ◌/◌, ◌%◌, ℤ, pos, Bool, ◌&&◌, pred_ℤ, le_ℤ, Option, none, some, List,
  [], ◌∷◌, ◌++◌, ltb, leb, ◌==◌, if◌then◌else◌, ◌>>=◌, codes,
}
use a_simple_microkernel.Store.{Ptr}
use a_simple_microkernel.Screen.{Screen, printf, printf_char, hex}
use a_simple_microkernel.Input.{Input, set_byte, add_to_buffer}
use a_simple_microkernel.ProcessManager.{ProcessManager, schedule}
use a_simple_microkernel.Ports.{Port, Device}
use a_simple_microkernel.Ports.Port8Bit

-- What the handler works on: the typed line, and the process manager with the screen.
pub record Console : Type 0 where
  pub input : Input
  pub manager : ProcessManager

-- The keys of the switch that type one character, but the digits 1 to 9.
abbrev keys : List (ℕ × ℕ)
keys =
    (0x0B, b'0')
    ∷ (0x10, b'q')
    ∷ (0x11, b'w')
    ∷ (0x12, b'e')
    ∷ (0x13, b'r')
    ∷ (0x14, b't')
    ∷ (0x15, b'z')
    ∷ (0x16, b'u')
    ∷ (0x17, b'i')
    ∷ (0x18, b'o')
    ∷ (0x19, b'p')
    ∷ (0x1E, b'a')
    ∷ (0x1F, b's')
    ∷ (0x20, b'd')
    ∷ (0x21, b'f')
    ∷ (0x22, b'g')
    ∷ (0x23, b'h')
    ∷ (0x24, b'j')
    ∷ (0x25, b'k')
    ∷ (0x26, b'l')
    ∷ (0x2C, b'y')
    ∷ (0x2D, b'x')
    ∷ (0x2E, b'c')
    ∷ (0x2F, b'v')
    ∷ (0x30, b'b')
    ∷ (0x31, b'n')
    ∷ (0x32, b'm')
    ∷ (0x33, b',')
    ∷ (0x34, b'.')
    ∷ (0x35, b'-')
    ∷ (0x39, b' ')
    ∷ []

unfoldable pub find_key : List (ℕ × ℕ) → ℕ → Option ℕ
find_key [] key = none
find_key ((k, c) ∷ rest) key = if key == k then some c else find_key rest key

-- The character of a key.
unfoldable pub key_char : ℕ → Option ℕ
unfolding find_key
key_char key = if leb 0x02 key && leb key 0x0A then some (key + 47) else find_key keys key

abbrev pub show : Console → Screen → Console
show c screen = record c { manager = record c.manager { screen = screen } }

-- `printf(c); add_to_buffer(c)`
unfoldable pub type_char : Console → ℕ → Console
type_char c ch = record (show c (printf_char c.manager.screen ch)) {
  input = add_to_buffer c.input ch;
}

unfoldable pub enter : Console → Console
enter c = record (show c (printf c.manager.screen (codes "\n"))) {
  input = add_to_buffer (record c.input { ready = pos 1 }) 0;
}

unfoldable pub backspace : Input → Input
unfolding set_byte
backspace s =
    let cleared = record s { in_buffer = set_byte s.in_buffer s.buf_index 0 } in
    if le_ℤ 0 s.buf_index then record cleared { buf_index = pred_ℤ s.buf_index } else cleared

unfoldable pub unknown_text : ℕ → List ℕ
unknown_text key = codes "KEYBOARD 0x" ++ (hex (key / 16 % 16) ∷ hex (key % 16) ∷ [])

-- The keys that type nothing.
unfoldable pub other_key : ℕ → Console → ℕ → Ptr → Option (Ptr × Console)
unfolding enter backspace
other_key fuel c key esp =
    if key == 0x45
    then some (esp, c)
    else if key == 0x1C
    then some (esp, enter c)
    else if key == 0x0F
    then (schedule fuel (record c.manager { screen = printf c.manager.screen (codes "\n") }) esp
        >>= λ (frame, manager). some (frame, record c { manager = manager }))
    else if key == 0x0E
    then some
        (esp, record (show c (printf c.manager.screen (8 ∷ []))) { input = backspace c.input })
    else some (esp, show c (printf c.manager.screen (unknown_text key)))

-- `handle_interrupt`, with the byte read from the data port. A release, from 0x80 on, does nothing.
unfoldable pub handle_interrupt : ℕ → Console → ℕ → Ptr → Option (Ptr × Console)
unfolding key_char type_char other_key
handle_interrupt fuel c key esp =
    if ltb key 0x80
    then elim (key_char key) [
      | some ch ↦ some (esp, type_char c ch)
      | none ↦ other_key fuel c key esp
    ]
    else some (esp, c)

-- The data port and the command port of the constructor.
abbrev pub data_port : Port
data_port = Port8Bit.new 0x60

abbrev pub command_port : Port
command_port = Port8Bit.new 0x64

-- `(v | 1) & ~0x10`, of a byte.
unfoldable pub enable_keyboard : ℕ → ℕ
enable_keyboard v = let set = v / 2 * 2 + 1 in set - set / 16 % 2 * 16

module _ {S : Type 0} (d : Device S) where
  -- The loop of the constructor. `none` means that the fuel ran out.
  unfoldable pub drain : ℕ → S → Option S
  unfolding Port8Bit.read
  drain zero s = none
  drain (suc fuel) s =
      let (status, s1) = Port8Bit.read d command_port s in
      let rest = drain fuel (Port8Bit.read d data_port s1).1 in
      if status % 2 == 0 then some s1 else rest

  -- The constructor behind its loop.
  unfoldable pub configure : S → S
  unfolding Port8Bit.read Port8Bit.write enable_keyboard
  configure s =
      let s1 = Port8Bit.write d command_port 0xAE s in
      let s2 = Port8Bit.write d command_port 0x20 s1 in
      let (v, s3) = Port8Bit.read d data_port s2 in
      let s4 = Port8Bit.write d command_port 0x60 s3 in
      let s5 = Port8Bit.write d data_port (enable_keyboard v) s4 in
      Port8Bit.write d data_port 0xF4 s5

  -- `KeyboardDriver::KeyboardDriver`, but for its entry in the table of handlers.
  unfoldable pub start : ℕ → S → Option S
  start fuel s = drain fuel s >>= λ s'. some (configure s')
