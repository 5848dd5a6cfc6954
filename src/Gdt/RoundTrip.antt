-- ===== src/Gdt/RoundTrip.antt =====
-- What the accessors of a descriptor read back of what its constructor stored.
use a_simple_microkernel.Prelude.{ℕ, ◌+◌, ◌%◌, ◌^◌, ◌≤◌, ◌<◌, ◌≡◌, ◌⊎◌, arith}
use a_simple_microkernel.Gdt.{new, get_base, get_limit}

-- The base of a descriptor is read back whole, whatever its limit and type.
get_base-new : (base limit type : ℕ) → base < 2 ^ 32 → get_base (new base limit type) ≡ base
unfolding get_base new
get_base-new base limit type h = omega arith

-- A limit up to 65536 is read back as it was given, and so is one that ends a page, as its last
-- twelve bits are ones. Any other is read back as the end of the page before, which is smaller by
-- the bytes that it has on its last page, at most 4095: the segment never grows.
get_limit-new :
    (base limit type : ℕ)
    → limit < 2 ^ 32
    → let read = get_limit (new base limit type) in
      (((limit ≤ 65536) ⊎ (limit % 4096 ≡ 4095)) × (read ≡ limit))
      ⊎ ((65536 < limit)
          × (read + limit % 4096 + 1 ≡ limit)
          × (read % 4096 ≡ 4095)
          × (limit ≤ read + 4095))
unfolding get_limit new
get_limit-new base limit type h = ground arith

-- A segment's base and limit, both words, are read back from its descriptor, whatever its type. The
-- base is read back whole. So is a limit up to 65536, and one that ends a page, as its last twelve
-- bits are ones. Any other limit is read back as the end of the page before, which is smaller by the
-- bytes that the limit has on its last page, at most 4095: the segment never grows.
pub accessors-new :
    (base limit type : ℕ)
    → base < 2 ^ 32
    → limit < 2 ^ 32
    → let read = get_limit (new base limit type) in
      (get_base (new base limit type) ≡ base)
      × ((((limit ≤ 65536) ⊎ (limit % 4096 ≡ 4095)) × (read ≡ limit))
          ⊎ ((65536 < limit)
              × (read + limit % 4096 + 1 ≡ limit)
              × (read % 4096 ≡ 4095)
              × (limit ≤ read + 4095)))
accessors-new base limit type b l =
    (get_base-new base limit type b, get_limit-new base limit type l)
