-- ===== src/Ports/Port16Bit.antt =====
-- The class `Port16Bit` of src/hwcomm/port.cpp.
use a_simple_microkernel.Prelude.{ℕ}
use a_simple_microkernel.Ports
use a_simple_microkernel.Ports.{Port, Device, write16, read16}

unfoldable pub new : ℕ → Port
unfolding Ports.new
new port_num = Ports.new port_num

module _ {S : Type 0} (d : Device S) where
  unfoldable pub write : Port → ℕ → S → S
  unfolding write16
  write this value = write16 d this.port_num value

  unfoldable pub read : Port → S → ℕ × S
  unfolding read16
  read this = read16 d this.port_num
