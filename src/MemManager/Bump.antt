-- ===== src/MemManager/Bump.antt =====
-- Allocation behind the last chunk: `MemManager::get_chunk` while its free list is empty.
use a_simple_microkernel.Prelude.{
  ℕ, suc, ◌+◌, ◌*◌, ◌%◌, ◌^◌, ◌≤◌, ◌<◌, ◌≡◌, refl, ◌∙◌, ap, false, ◌⊎◌, inl, inr, dec_lt, some,
  arith, ltb, lt→ltb, le→ltb,
}
use a_simple_microkernel.Store.{Ptr, null, Mem, load8, load32, store8, store32}
use a_simple_microkernel.Store.Laws.{
  store8_ne, store32_ne, load32-store32_self, load32-store32_ne, load8-store8_self,
  load8-store32_ne,
}
use a_simple_microkernel.MemManager.{
  MemManager, get_base, get_limit, new, bump, get_chunk, Allocated,
}

-- The end of the last chunk lies in the segment.
pub record IsValid (a : MemManager) : Type 0 where
  pub selector : a.segment_sl < 2 ^ 16
  pub above : get_base a.segment_sl ≤ a.last_p
  pub below : a.last_p ≤ get_limit a.segment_sl

-- The constructor leaves the manager valid, at the base of its segment.
pub new-IsValid : (sl : ℕ) → sl < 2 ^ 16 → IsValid (new sl)
unfolding new get_base get_limit
new-IsValid sl h = omega arith

pub get_chunk-bump :
    (f : ℕ) (a : MemManager) (m : Mem) (n : ℕ)
    → a.free_list ≡ null
    → get_chunk (suc f) a m n ≡ some (bump a m n)
unfolding get_chunk
get_chunk-bump f a m n e = rw e

-- A request of `n` bytes was granted at `p`.
pub record Granted (a : MemManager) (m : Mem) (n : ℕ) (r : Allocated) : Type 0 where
  pub place : r.0 ≡ a.last_p + 9
  pub end : r.1.last_p ≡ r.0 + n
  pub segment : r.1.segment_sl ≡ a.segment_sl
  pub list : r.1.free_list ≡ a.free_list
  pub size : load32 r.2 a.last_p ≡ n
  pub link : load32 r.2 (a.last_p + 4) ≡ null
  pub taken : load8 r.2 (a.last_p + 8) ≡ 0
  pub kept : (b : Ptr) → (b < a.last_p) ⊎ (a.last_p + 9 ≤ b) → r.2 b ≡ m b

module _ (a : MemManager) (m : Mem) (n : ℕ) where
  pub bump-Granted :
      IsValid a → a.last_p + n + 9 ≤ get_limit a.segment_sl → Granted a m n (bump a m n)
  unfolding bump get_limit
  bump-Granted v h =
      rw
        (le→ltb (a.segment_sl * 65536 % 2 ^ 32 + 65535) ((a.last_p + n + 9) % 2 ^ 32) (omega arith))
        (record {
          place = omega arith;
          end = omega arith;
          segment = refl;
          list = refl;
          size = omega (arith, load32-store32_self k l n);
          link = omega (
            arith,
            load32-store32_ne k l n (l + 4) (omega arith),
            load32-store32_self j (l + 4) null,
          );
          taken = omega (
            arith,
            load8-store32_ne k l n (l + 8) (omega arith),
            load8-store32_ne j (l + 4) null (l + 8) (omega arith),
            load8-store8_self m (l + 8) 0,
          );
          kept = λ b h. omega (
            arith,
            store32_ne k l n b (omega arith),
            store32_ne j (l + 4) null b (omega arith),
            store8_ne m (l + 8) 0 b (omega arith),
          );
        })
    where
      l : Ptr
      l = a.last_p

      j : Mem
      j = store8 m (l + 8) 0

      k : Mem
      k = store32 j (l + 4) null

  Granted-IsValid :
      IsValid a
      → a.last_p + n + 9 ≤ get_limit a.segment_sl
      → Granted a m n (bump a m n)
      → IsValid (bump a m n).1
  Granted-IsValid v h g = record {
    selector = rw g.segment v.selector;
    above = let low = v.above in rw g.segment (omega arith);
    below = rw g.segment (omega arith);
  }

  -- With an empty free list, a request that fits the segment is granted behind the last chunk: the
  -- chunk begins past a nine-byte header that records its size, a null link and that it is taken,
  -- the next chunk will begin at its end, and no byte outside the header is written.
  pub get_chunk-Granted :
      (f : ℕ)
      → IsValid a
      → a.free_list ≡ null
      → a.last_p + n + 9 ≤ get_limit a.segment_sl
      → (r : Allocated) × (get_chunk (suc f) a m n ≡ some r) × Granted a m n r × IsValid r.1
  get_chunk-Granted f v e h = (
    bump a m n,
    get_chunk-bump f a m n e,
    bump-Granted v h,
    Granted-IsValid v h (bump-Granted v h),
  )

  -- With an empty free list, a request that does not fit and whose end is still a 32-bit address is
  -- refused with the null pointer, and neither the manager nor the memory changes.
  pub get_chunk-refused :
      (f : ℕ)
      → a.free_list ≡ null
      → get_limit a.segment_sl < a.last_p + n + 9
      → a.last_p + n + 9 < 2 ^ 32
      → get_chunk (suc f) a m n ≡ some (null, a, m)
  unfolding bump get_limit
  get_chunk-refused f e h lt =
      get_chunk-bump f a m n e
      ∙ ap some (
          rw (
            lt→ltb (a.segment_sl * 65536 % 2 ^ 32 + 65535) ((a.last_p + n + 9) % 2 ^ 32)
              (omega arith)))

  -- With an empty free list, a request whose end passes the last 32-bit address and comes out in
  -- the segment after the wrap is granted, though it does not fit: the test against the limit is made
  -- on the wrapped sum, and the next chunk will begin at the wrapped end.
  pub get_chunk_wraps :
      (f : ℕ)
      → IsValid a
      → a.free_list ≡ null
      → 2 ^ 32 ≤ a.last_p + n + 9
      → a.last_p + n + 9 ≤ 2 ^ 32 + get_limit a.segment_sl
      → a.segment_sl < 65535
      → (r : Allocated) × (get_chunk (suc f) a m n ≡ some r)
        × (r.0 ≡ a.last_p + 9)
        × (r.1.last_p + 2 ^ 32 ≡ r.0 + n)
  unfolding bump get_limit get_base
  get_chunk_wraps f v e h lt sl =
      (bump a m n, get_chunk-bump f a m n e, rw room (omega arith), rw room (omega arith))
    where
      room : ltb (a.segment_sl * 65536 % 2 ^ 32 + 65535) ((a.last_p + n + 9) % 2 ^ 32) ≡ false
      room = le→ltb _ _ (omega arith)

  pub bump_cases :
      IsValid a
      → a.last_p + n + 9 < 2 ^ 32
      → (bump a m n ≡ (null, a, m)) ⊎ (Granted a m n (bump a m n) × IsValid (bump a m n).1)
  unfolding bump
  bump_cases v lt = elim (dec_lt (get_limit a.segment_sl) (a.last_p + n + 9)) [
    | yes h ↦ inl (rw (lt→ltb (get_limit a.segment_sl) ((a.last_p + n + 9) % 2 ^ 32) (omega arith)))
    | no h ↦ inr (
      bump-Granted v (omega arith),
      Granted-IsValid v (omega arith) (bump-Granted v (omega arith)),
    )
  ]
