-- ===== src/Mouse.antt =====
-- The mouse driver: src/drivers/mouse.cpp and include/drivers/mouse.h. The port bytes that the
-- handler reads are arguments; the constructor works on a device. An `int8_t` is its byte.
pub mod Cursor
use a_simple_microkernel.Prelude.{
  ℕ, ◌+◌, ◌-◌, ◌*◌, ◌/◌, ◌%◌, Bool, not, ◌&&◌, ◌||◌, Option, some, ltb, leb, ◌==◌, if◌then◌else◌,
  ◌>>=◌,
}
use a_simple_microkernel.Store.{Ptr}
use a_simple_microkernel.Screen.{Screen, set_cell}
use a_simple_microkernel.Ports.{Port, Device}
use a_simple_microkernel.Ports.Port8Bit
use a_simple_microkernel.ProcessManager.{ProcessManager, schedule}

pub record MouseDriver : Type 0 where
  pub buffer : ℕ → ℕ
  pub offset : ℕ
  pub buttons : ℕ
  pub x : ℕ
  pub y : ℕ

-- The colours of a cell change places.
unfoldable pub invert : ℕ → ℕ
invert cell = cell / 256 % 16 * 4096 + cell / 4096 % 16 * 256 + cell % 256

unfoldable pub invert_at : (ℕ → ℕ) → (x y : ℕ) → ℕ → ℕ
invert_at video x y = set_cell video (80 * y + x) (invert (video (80 * y + x)))

-- The first half of the constructor: the cursor is put at the middle of the screen.
unfoldable pub new : (ℕ → ℕ) → (ℕ → ℕ) → MouseDriver × (ℕ → ℕ)
new buffer video =
    (record { buffer = buffer; offset = 0; buttons = 0; x = 40; y = 12 }, invert_at video 40 12)

abbrev pub data_port : Port
data_port = Port8Bit.new 0x60

abbrev pub command_port : Port
command_port = Port8Bit.new 0x64

-- The second half: what the constructor exchanges with the controller and the mouse. `v | 2` is
-- `v` with bit 1 set.
unfoldable pub start : {S : Type 0} → Device S → S → S
unfolding Port8Bit.read Port8Bit.write
start d s =
    let s1 = Port8Bit.write d command_port 0xA8 s in
    let s2 = Port8Bit.write d command_port 0x20 s1 in
    let (v, s3) = Port8Bit.read d data_port s2 in
    let s4 = Port8Bit.write d command_port 0x60 s3 in
    let s5 = Port8Bit.write d data_port (v - v / 2 % 2 * 2 + 2) s4 in
    let s6 = Port8Bit.write d command_port 0xD4 s5 in
    let s7 = Port8Bit.write d data_port 0xF4 s6 in (Port8Bit.read d data_port s7).1

-- `if(x >= 80) x = 79; if(x < 0) x = 0;` of an `int8_t`, which is negative from 128 on.
unfoldable pub clamp : ℕ → ℕ → ℕ
clamp limit v = if ltb v 128 then (if leb limit v then limit - 1 else v) else 0

-- The moving of the cursor.
unfoldable pub move : MouseDriver → (ℕ → ℕ) → MouseDriver × (ℕ → ℕ)
move m video =
    if not (m.buffer 1 == 0) || not (m.buffer 2 == 0)
    then (let x = clamp 80 ((m.x + m.buffer 1) % 256) in
        let y = clamp 25 ((m.y + 256 - m.buffer 2) % 256) in
        (record m { x = x; y = y }, invert_at (invert_at video m.x m.y) x y))
    else (m, video)

abbrev pub bit : ℕ → ℕ → ℕ
bit v i = v / i % 2

-- The loop over the three buttons: is there one that is down now and was not before? Its bits are
-- 1, 2 and 4.
unfoldable pub pressed : ℕ → ℕ → Bool
pressed now before =
    (not (bit now 1 == bit before 1) && (bit before 1 == 0))
    || ((not (bit now 2 == bit before 2) && (bit before 2 == 0))
        || (not (bit now 4 == bit before 4) && (bit before 4 == 0)))

-- The part of the handler behind the third byte.
unfoldable pub packet :
    ℕ → MouseDriver → ProcessManager → Ptr → Option (Ptr × MouseDriver × ProcessManager)
packet fuel m p esp =
    let (m', video) = move m p.screen.video in
    let p' = record p { screen = record p.screen { video = video } } in
    if pressed (m'.buffer 0) m'.buttons
    then (schedule fuel p' esp >>= λ (esp', p''). some (esp', m', p''))
    else some (esp, record m' { buttons = m'.buffer 0 }, p')

-- `handle_interrupt`, with the controller's status and the byte read from the data port. The
-- scheduler that a press calls is that of the kernel's process manager.
unfoldable pub handle_interrupt :
    ℕ
    → MouseDriver
    → ProcessManager
    → (status byte : ℕ) → Ptr
    → Option (Ptr × MouseDriver × ProcessManager)
handle_interrupt fuel m p status byte esp =
    if bit status 0x20 == 0
    then some (esp, m, p)
    else (let m' = record m {
      buffer = set_cell m.buffer m.offset byte;
      offset = (m.offset + 1) % 3;
    } in
        if m'.offset == 0 then packet fuel m' p esp else some (esp, m', p))
