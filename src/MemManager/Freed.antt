-- ===== src/MemManager/Freed.antt =====
-- What `MemManager::free` leaves alone.
use a_simple_microkernel.Prelude.{
  ℕ, ◌+◌, ◌-◌, ◌%◌, ◌^◌, ◌<◌, ◌≡◌, refl, sym, subst, ◌∙◌, some, List, [], ◌∷◌, ◌++◌, eq→==, ltb,
  ◌==◌, Bool-cases, inl, inr, length, head_or, last_or,
}
use a_simple_microkernel.Store.{Ptr, null, Mem, load8, load32, store32}
use a_simple_microkernel.Store.Laws.{Apart, load32-store32_ne}
use a_simple_microkernel.Store.Chain.{
  walk-Chain, before, since, before-append-since, Chain, Away, Chain-head_eq, Away-at,
}
use a_simple_microkernel.MemManager.{MemManager, sizeof_chunk, link, free}

module _ (a : MemManager) (m : Mem) (p : Ptr) where
  link-kept :
      (ys zs : List Ptr) (b : Ptr)
      → Chain 4 m a.free_list (ys ++ zs)
      → Apart b 4 (p + 4) 4
      → Away 4 b (ys ++ zs)
      → load32 (link a m p (last_or null ys) (head_or null zs)).1 b ≡ load32 m b
  unfolding link
  link-kept [] zs b c h w =
      rw (eq→== (head_or null zs) a.free_list (sym (Chain-head_eq 4 m zs a.free_list c)))
        (load32-store32_ne m (p + 4) a.free_list b h)
  link-kept (y ∷ ys) zs b c h w = elim (Bool-cases (head_or null zs == a.free_list)) [
    | inl e ↦ rw e (load32-store32_ne m (p + 4) a.free_list b h)
    | inr e ↦ rw e (
        load32-store32_ne (store32 m (last_or y ys + 4) p) (p + 4) (head_or null zs) b h
        ∙ load32-store32_ne m (last_or y ys + 4) p b (Away-at 4 b y ys zs w))
  ]

  -- With a well-linked free list and fuel for it, `free` returns, and it writes the second word of
  -- chunks of that list and of the freed one at most.
  pub free-kept :
      (f : ℕ) (xs : List Ptr)
      → Chain 4 m a.free_list xs
      → length xs < f
      → (r : MemManager × Mem) × (free f a m p ≡ some r)
        × ((b : Ptr) → Apart b 4 (p + 4) 4 → Away 4 b xs → load32 r.1 b ≡ load32 m b)
  unfolding free
  free-kept f xs c lt = elim (Bool-cases (load8 m (p + 8) == 0)) [
    | inr e ↦ ((a, m), rw e refl, λ b h w. refl)
    | inl e ↦ elim (Bool-cases ((p + load32 m p) % 2 ^ 32 == a.last_p)) [
      | inl last ↦ (
        (record a { last_p = (p + 2 ^ 32 - sizeof_chunk) % 2 ^ 32 }, m),
        rw (e, last) refl,
        λ b h w. refl,
      )
      | inr other ↦
          let ys = before (ltb p) xs in
          let zs = since (ltb p) xs in
          let split : ys ++ zs ≡ xs = before-append-since (ltb p) xs in
          (
            link a m p (last_or null ys) (head_or null zs),
            rw (e, other, walk-Chain 4 (ltb p) f m null a.free_list xs c lt) refl,
            λ b h w.
                link-kept ys zs b (subst (Chain 4 m a.free_list) (sym split) c) h
                  (subst (Away 4 b) (sym split) w),
          )
    ]
  ]
