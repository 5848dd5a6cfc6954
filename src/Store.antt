-- ===== src/Store.antt =====
-- The machine's byte-addressed memory, which every kernel object shares. An address is a number, a
-- cell holds a byte, and a 32-bit word is four bytes in little-endian order, as on i386.
pub mod Laws
pub mod Objects
pub mod Chain
use a_simple_microkernel.Prelude.{ℕ, ◌+◌, ◌*◌, ◌/◌, ◌%◌, ◌==◌, if◌then◌else◌}

abbrev pub Ptr : Type 0
Ptr = ℕ

abbrev pub null : Ptr
null = 0

abbrev pub Mem : Type 0
Mem = Ptr → ℕ

unfoldable pub load8 : Mem → Ptr → ℕ
load8 m p = m p % 256

unfoldable pub store8 : Mem → Ptr → ℕ → Mem
store8 m p v a = if a == p then v % 256 else m a

unfoldable pub load32 : Mem → Ptr → ℕ
unfolding load8
load32 m p =
    load8 m p + 256 * load8 m (p + 1) + 65536 * load8 m (p + 2) + 16777216 * load8 m (p + 3)

unfoldable pub store32 : Mem → Ptr → ℕ → Mem
unfolding store8
store32 m p v =
    store8 (store8 (store8 (store8 m p v) (p + 1) (v / 256)) (p + 2) (v / 65536)) (p + 3)
      (v / 16777216)
