-- ===== src/MemManager.antt =====
-- The allocator of a memory segment: src/memory/memmanager.cpp and include/memory/memmanager.h.
-- A `MemManager` works on the shared memory, so each operation takes and returns both. The walks
-- along the free list take fuel; `none` means that it ran out.
pub mod Bump
pub mod Freed
pub mod FreeList
pub mod Requests
use a_simple_microkernel.Prelude.{
  ℕ, ◌+◌, ◌-◌, ◌*◌, ◌%◌, ◌^◌, Bool, not, Option, some, ltb, ◌==◌, if◌then◌else◌, ◌>>=◌,
}
use a_simple_microkernel.Store.{Ptr, null, Mem, load8, load32, store8, store32}
use a_simple_microkernel.Store.Chain.{walk}

-- `struct MemChunk`, packed: `size` at 0, `next_chunk` at 4, `is_free` at 8.
abbrev pub sizeof_chunk : ℕ
sizeof_chunk = 9

pub record MemManager : Type 0 where
  pub segment_sl : ℕ
  pub last_p : ℕ
  pub free_list : Ptr

-- A segment of 64 KiB begins at `segment_sl << 16`.
unfoldable pub get_base : ℕ → ℕ
get_base segment_sl = segment_sl * 65536 % 2 ^ 32

unfoldable pub get_limit : ℕ → ℕ
get_limit segment_sl = segment_sl * 65536 % 2 ^ 32 + 65535

unfoldable pub new : ℕ → MemManager
unfolding get_base
new t_segment_sl = record {
  segment_sl = t_segment_sl;
  last_p = get_base t_segment_sl;
  free_list = null;
}

-- What an allocation returns: the chunk, the manager and the memory.
abbrev pub Allocated : Type 0
Allocated = Ptr × MemManager × Mem

-- The end of `get_chunk`: a new chunk behind the last one. The sums are `uint32_t`.
unfoldable pub bump : MemManager → Mem → ℕ → Allocated
unfolding get_limit
bump a m t_size =
    if ltb (get_limit a.segment_sl) ((a.last_p + t_size + sizeof_chunk) % 2 ^ 32)
    then (null, a, m)
    else (let m' =
          store32 (store32 (store8 m (a.last_p + 8) 0) (a.last_p + 4) null) a.last_p t_size in
        let result = (a.last_p + sizeof_chunk) % 2 ^ 32 in
        (result, record a { last_p = (result + t_size) % 2 ^ 32 }, m'))

-- The body of the loop of `get_chunk` at the chunk that fits: `target + sizeof(MemChunk)` is
-- arithmetic on a `MemChunk*`, so it adds the size squared.
unfoldable pub reuse : MemManager → Mem → (prev target : Ptr) → Allocated
reuse a m prev target =
    let next = load32 m (target + 4) in
    let m1 = if target == a.free_list then m else store32 m (prev + 4) next in
    let m2 = store8 (store32 m1 (target + 4) null) (target + 8) 0 in
    (
      (target + sizeof_chunk * sizeof_chunk) % 2 ^ 32,
      (if target == a.free_list then record a { free_list = next } else a),
      m2,
    )

-- A chunk of the free list fits when its size is the one that is asked for.
unfoldable pub fits : Mem → ℕ → Ptr → Bool
fits m t_size target = load32 m target == t_size

unfoldable pub get_chunk : ℕ → MemManager → Mem → ℕ → Option Allocated
unfolding walk bump reuse fits
get_chunk fuel a m t_size = walk 4 (fits m t_size) fuel m null a.free_list >>= λ (prev, target).
    some (if target == null then bump a m t_size else reuse a m prev target)

-- The end of `free`: the chunk is linked in behind `prev` and before `temp`.
unfoldable pub link : MemManager → Mem → (t_chunk_p prev temp : Ptr) → MemManager × Mem
link a m t_chunk_p prev temp =
    if temp == a.free_list
    then (record a { free_list = t_chunk_p }, store32 m (t_chunk_p + 4) a.free_list)
    else (a, store32 (store32 m (prev + 4) t_chunk_p) (t_chunk_p + 4) temp)

-- `free` gives the last chunk back, or links a chunk into the free list in the order of addresses.
unfoldable pub free : ℕ → MemManager → Mem → Ptr → Option (MemManager × Mem)
unfolding walk link
free fuel a m t_chunk_p =
    if not (load8 m (t_chunk_p + 8) == 0)
    then some (a, m)
    else if (t_chunk_p + load32 m t_chunk_p) % 2 ^ 32 == a.last_p
    then some (record a { last_p = (t_chunk_p + 2 ^ 32 - sizeof_chunk) % 2 ^ 32 }, m)
    else (walk 4 (ltb t_chunk_p) fuel m null a.free_list >>= λ (prev, temp).
        some (link a m t_chunk_p prev temp))
