-- ===== src/Gdt.antt =====
-- Segment descriptors and selectors: src/gdt.cpp and include/gdt.h. A descriptor is the eight bytes
-- that `target` points at. The bit operations are the divisions and remainders that they are.
pub mod RoundTrip
use a_simple_microkernel.Prelude.{ℕ, ◌+◌, ◌-◌, ◌*◌, ◌/◌, ◌%◌, ◌^◌, leb, ◌==◌, not, if◌then◌else◌}
use a_simple_microkernel.Store.{Ptr, load8, load32, store32}

-- `target[0]` to `target[7]`.
pub record SegmentDescriptor : Type 0 where
  pub limit_lo0 : ℕ
  pub limit_lo1 : ℕ
  pub base_lo0 : ℕ
  pub base_lo1 : ℕ
  pub base_hi : ℕ
  pub type : ℕ
  pub flags_limit_hi : ℕ
  pub base_vhi : ℕ

-- The limit as the constructor stores it: in bytes up to 65536, else in pages of 4096 bytes.
unfoldable pub scaled : ℕ → ℕ
scaled limit =
    if leb limit 65536
    then limit
    else if not (limit % 4096 == 4095)
    then (limit / 4096 + 2 ^ 32 - 1) % 2 ^ 32
    else limit / 4096

-- `target[6]` before the limit is put into its low four bits.
unfoldable pub flags : ℕ → ℕ
flags limit = if leb limit 65536 then 0x40 else 0xC0

unfoldable pub new : (base limit type : ℕ) → SegmentDescriptor
unfolding scaled flags
new base limit type = record {
  limit_lo0 = scaled limit % 256;
  limit_lo1 = scaled limit / 256 % 256;
  base_lo0 = base % 256;
  base_lo1 = base / 256 % 256;
  base_hi = base / 65536 % 256;
  type = type;
  flags_limit_hi = flags limit + scaled limit / 65536 % 16;
  base_vhi = base / 16777216 % 256;
}

unfoldable pub get_base : SegmentDescriptor → ℕ
get_base d =
    let result = d.base_vhi in
    let result = (result * 256 + d.base_hi) % 2 ^ 32 in
    let result = (result * 256 + d.base_lo1) % 2 ^ 32 in (result * 256 + d.base_lo0) % 2 ^ 32

-- `result << 12` leaves its low twelve bits zero, so `| 0xFFF` adds them.
unfoldable pub get_limit : SegmentDescriptor → ℕ
get_limit d =
    let result = d.flags_limit_hi % 16 in
    let result = (result * 256 + d.limit_lo1) % 2 ^ 32 in
    let result = (result * 256 + d.limit_lo0) % 2 ^ 32 in
    if d.flags_limit_hi / 64 % 4 == 3 then result * 4096 % 2 ^ 32 + 4095 else result

-- The table of six descriptors of eight bytes, and the offsets of four of them in it.
pub record GlobalDescriptorTable : Type 0 where
  pub null_ss : SegmentDescriptor
  pub unused_ss : SegmentDescriptor
  pub code_ss : SegmentDescriptor
  pub data_ss : SegmentDescriptor
  pub stack_ss : SegmentDescriptor
  pub process_ss : SegmentDescriptor

abbrev pub table : GlobalDescriptorTable
table = record {
  null_ss = new 0 0 0;
  unused_ss = new 0 0 0;
  code_ss = new 0 (16 * 1024 * 1024) 0x9A;
  data_ss = new 0 (16 * 1024 * 1024) 0x92;
  stack_ss = new 0 (16 * 1024 * 1024) 0x96;
  process_ss = new 0 (16 * 1024 * 1024) 0x96;
}

abbrev pub sizeof_descriptor : ℕ
sizeof_descriptor = 8

abbrev pub get_css : ℕ
get_css = 2 * sizeof_descriptor

abbrev pub get_dss : ℕ
get_dss = 3 * sizeof_descriptor

abbrev pub get_sss : ℕ
get_sss = 4 * sizeof_descriptor

abbrev pub get_pss : ℕ
get_pss = 5 * sizeof_descriptor

-- `init`: the limit and the base that `lgdt` is given, which are read two bytes into the array `i`,
-- here at address 0. The table has six descriptors.
unfoldable pub init : (this : Ptr) → ℕ × Ptr
init this =
    let i = store32 (store32 (λ a. 0) 4 this) 0 (6 * sizeof_descriptor * 65536) in
    (load8 i 2 + load8 i 3 * 256, load32 i 4)
