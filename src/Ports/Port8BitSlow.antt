-- ===== src/Ports/Port8BitSlow.antt =====
-- The class `Port8BitSlow` of src/hwcomm/port.cpp.
use a_simple_microkernel.Prelude.{ℕ}
use a_simple_microkernel.Ports
use a_simple_microkernel.Ports.{Port, Device, write8_slow}

unfoldable pub new : ℕ → Port
unfolding Ports.new
new port_num = Ports.new port_num

-- Reading is that of `Port8Bit`.
module _ {S : Type 0} (d : Device S) where
  unfoldable pub write : Port → ℕ → S → S
  unfolding write8_slow
  write this value = write8_slow d this.port_num value
