-- ===== src/Ports/Port8Bit.antt =====
-- The class `Port8Bit` of src/hwcomm/port.cpp.
use a_simple_microkernel.Prelude.{ℕ}
use a_simple_microkernel.Ports
use a_simple_microkernel.Ports.{Port, Device, write8, read8}

unfoldable pub new : ℕ → Port
unfolding Ports.new
new port_num = Ports.new port_num

module _ {S : Type 0} (d : Device S) where
  unfoldable pub write : Port → ℕ → S → S
  unfolding write8
  write this value = write8 d this.port_num value

  unfoldable pub read : Port → S → ℕ × S
  unfolding read8
  read this = read8 d this.port_num
