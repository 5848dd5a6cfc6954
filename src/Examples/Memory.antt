-- ===== src/Examples/Memory.antt =====
-- The allocator and the descriptors at concrete data.
use a_simple_microkernel.Prelude.{
  ◌+◌, ◌*◌, ◌%◌, ◌^◌, ◌≤◌, ◌<◌, ◌≡◌, ◌⊎◌, refl, [], ◌∷◌, some, arith, All,
}
use a_simple_microkernel.Store.{null, Mem, load8, load32, store32}
use a_simple_microkernel.Store.Chain.{Chain, before, since}
use a_simple_microkernel.MemManager
use a_simple_microkernel.MemManager.{
  MemManager, Allocated, get_base, get_limit, get_chunk, bump, free, fits,
}
use a_simple_microkernel.MemManager.Bump.{IsValid, Granted, get_chunk-Granted, get_chunk_wraps}
use a_simple_microkernel.MemManager.Requests.{
  Requests, start, granted, Within, Disjoint, Requests-Disjoint,
}
use a_simple_microkernel.MemManager.FreeList.{Taken, get_chunk-reuse, Rising, inserted, free-Chain}
use a_simple_microkernel.Gdt
use a_simple_microkernel.Gdt.RoundTrip.{accessors-new}

abbrev blank : Mem
blank = λ p. 0

-- The manager of the segment of processes, selector 40, when it is new.
abbrev fresh : MemManager
fresh = record { segment_sl = 40; last_p = 2621440; free_list = null }

fresh-new : MemManager.new 40 ≡ fresh
unfolding MemManager.new
fresh-new = refl

fresh-IsValid : IsValid fresh
unfolding get_base get_limit
fresh-IsValid = omega arith

get_chunk-Granted_example :
    (r : Allocated) × (get_chunk 1 fresh blank 44 ≡ some r) × Granted fresh blank 44 r × IsValid r.1
get_chunk-Granted_example =
    get_chunk-Granted fresh blank 44 0 fresh-IsValid refl (unfold get_limit in omega arith)

get_chunk_wraps_example :
    (r : Allocated) × (get_chunk 1 fresh blank 4292345855 ≡ some r)
    × (r.0 ≡ 2621449)
    × (r.1.last_p + 2 ^ 32 ≡ r.0 + 4292345855)
get_chunk_wraps_example =
    get_chunk_wraps fresh blank 4292345855 0 fresh-IsValid refl (omega arith)
      (unfold get_limit in omega arith) (omega arith)

-- Two process entries in a row.
abbrev one : Allocated
one = bump fresh blank 44

abbrev two : Allocated
two = bump one.1 one.2 44

two-Requests : Requests 0 fresh blank two.1 two.2 ((2621502, 44) ∷ (2621449, 44) ∷ [])
unfolding bump get_chunk
two-Requests =
    granted 44 2621502 (granted 44 2621449 start (omega arith) refl (omega arith)) (omega arith)
      refl (omega arith)

Requests-Disjoint_example :
    All (Within fresh (get_limit 40)) ((2621502, 44) ∷ (2621449, 44) ∷ [])
    × Disjoint ((2621502, 44) ∷ (2621449, 44) ∷ [])
    × IsValid two.1
Requests-Disjoint_example = Requests-Disjoint 0 fresh blank fresh-IsValid refl two-Requests

-- A free list of two chunks, at 1000 with 12 bytes and at 2000 with 44.
abbrev listed : Mem
listed = store32 (store32 (store32 blank 1000 12) 1004 2000) 2000 44

abbrev lister : MemManager
lister = record { segment_sl = 40; last_p = 2621440; free_list = 1000 }

listed-Chain : Chain 4 listed 1000 (1000 ∷ 2000 ∷ [])
unfolding load32 store32
listed-Chain = (refl, omega arith, (refl, omega arith, refl))

get_chunk-reuse_example :
    (r : Allocated) × (get_chunk 3 lister listed 44 ≡ some r)
    × Taken lister (before (fits listed 44) (1000 ∷ 2000 ∷ [])) 2000 [] r
get_chunk-reuse_example =
    get_chunk-reuse lister listed 3 44 (1000 ∷ 2000 ∷ []) listed-Chain (omega arith) 2000 []
      (omega arith) (unfold since fits load32 store32 in refl)

free-Chain_example :
    (r : MemManager × Mem) × (free 3 lister listed 1500 ≡ some r)
    × Chain 4 r.1 r.0.free_list (inserted 1500 (1000 ∷ 2000 ∷ []))
    × Rising (inserted 1500 (1000 ∷ 2000 ∷ []))
    × (r.0.last_p ≡ 2621440)
free-Chain_example =
    free-Chain lister listed 1500 (omega arith) (omega arith) (omega arith) 3 (1000 ∷ 2000 ∷ [])
      listed-Chain (omega arith) (omega arith) (omega arith) (unfold load8 store32 in refl)
      (unfold load32 store32 in omega arith)

-- The limit of the kernel's code segment.
accessors-new_example :
    let read = Gdt.get_limit (Gdt.new 0x100000 (16 * 1024 * 1024) 0x9A) in
    (Gdt.get_base (Gdt.new 0x100000 (16 * 1024 * 1024) 0x9A) ≡ 0x100000)
    × ((((16 * 1024 * 1024 ≤ 65536) ⊎ (16 * 1024 * 1024 % 4096 ≡ 4095)) × (read ≡ 16 * 1024 * 1024))
        ⊎ ((65536 < 16 * 1024 * 1024)
            × (read + 16 * 1024 * 1024 % 4096 + 1 ≡ 16 * 1024 * 1024)
            × (read % 4096 ≡ 4095)
            × (16 * 1024 * 1024 ≤ read + 4095)))
accessors-new_example = accessors-new 0x100000 (16 * 1024 * 1024) 0x9A (omega arith) (omega arith)
