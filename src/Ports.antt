-- ===== src/Ports.antt =====
-- The ports: include/hwcomm/port.h and, in the child modules, the four classes of
-- src/hwcomm/port.cpp. What answers at the ports is a device, a parameter of the model.
pub mod Port8Bit
pub mod Port8BitSlow
pub mod Port16Bit
pub mod Port32Bit
use a_simple_microkernel.Prelude.{ℕ, ◌%◌, ◌^◌}

-- What the CPU does that is seen outside it: port writes of 8, 16 and 32 bits, the slow one with two
-- jumps behind it, and three instructions on interrupts.
pub data Event : Type 0 where
  outb outb_slow outw outl : (port value : ℕ) → Event
  int : ℕ → Event
  sti cli : Event

-- A device with states `S`: what reads of a port return, and what reads and events do to the state.
pub record Device (S : Type 0) : Type 0 where
  pub inb : ℕ → S → ℕ × S
  pub inw : ℕ → S → ℕ × S
  pub inl : ℕ → S → ℕ × S
  pub out : Event → S → S

pub record Port : Type 0 where
  pub port_num : ℕ

-- `Port::Port`, with a `uint16_t`.
unfoldable pub new : ℕ → Port
new port_num = record { port_num = port_num % 2 ^ 16 }

module _ {S : Type 0} (d : Device S) where
  unfoldable pub read8 : (port : ℕ) → S → ℕ × S
  read8 port s = let (v, s') = d.inb port s in (v % 2 ^ 8, s')

  unfoldable pub write8 : (port byte : ℕ) → S → S
  write8 port byte s = d.out (outb port (byte % 2 ^ 8)) s

  unfoldable pub write8_slow : (port byte : ℕ) → S → S
  write8_slow port byte s = d.out (outb_slow port (byte % 2 ^ 8)) s

  unfoldable pub read16 : (port : ℕ) → S → ℕ × S
  read16 port s = let (v, s') = d.inw port s in (v % 2 ^ 16, s')

  unfoldable pub write16 : (port word : ℕ) → S → S
  write16 port word s = d.out (outw port (word % 2 ^ 16)) s

  unfoldable pub read32 : (port : ℕ) → S → ℕ × S
  read32 port s = let (v, s') = d.inl port s in (v % 2 ^ 32, s')

  unfoldable pub write32 : (port long : ℕ) → S → S
  write32 port long s = d.out (outl port (long % 2 ^ 32)) s
