-- ===== src/Ports/Port32Bit.antt =====
-- The class `Port32Bit` of src/hwcomm/port.cpp.
use a_simple_microkernel.Prelude.{ℕ}
use a_simple_microkernel.Ports
use a_simple_microkernel.Ports.{Port, Device, write32, read32}

unfoldable pub new : ℕ → Port
unfolding Ports.new
new port_num = Ports.new port_num

module _ {S : Type 0} (d : Device S) where
  unfoldable pub write : Port → ℕ → S → S
  unfolding write32
  write this value = write32 d this.port_num value

  unfoldable pub read : Port → S → ℕ × S
  unfolding read32
  read this = read32 d this.port_num
