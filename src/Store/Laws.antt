-- ===== src/Store/Laws.antt =====
-- What a load returns after a store, at the same place and apart from it.
use a_simple_microkernel.Prelude.{
  ℕ, ◌+◌, ◌/◌, ◌%◌, ◌^◌, ◌≤◌, ◌<◌, ◌≡◌, refl, ◌≢◌, ◌⊎◌, arith, eq→==, ne→==,
}
use a_simple_microkernel.Store.{Ptr, Mem, load8, store8, load32, store32}

-- The `n` bytes from `a` and the `k` bytes from `b` have no byte in common.
abbrev pub Apart : Ptr → ℕ → Ptr → ℕ → Type 0
Apart a n b k = (a + n ≤ b) ⊎ (b + k ≤ a)

module _ (m : Mem) where
  pub load8-lt : (p : Ptr) → load8 m p < 256
  unfolding load8
  load8-lt p = omega arith

  pub load32-lt : (p : Ptr) → load32 m p < 2 ^ 32
  unfolding load32
  load32-lt p = omega arith

  pub load8-store8_self : (p : Ptr) (v : ℕ) → load8 (store8 m p v) p ≡ v % 256
  unfolding load8 store8
  load8-store8_self p v = rw (eq→== p p refl) (omega arith)

  pub store8_ne : (p : Ptr) (v : ℕ) (a : Ptr) → a ≢ p → store8 m p v a ≡ m a
  unfolding store8
  store8_ne p v a h = rw (ne→== a p h)

  pub store8_self : (p : Ptr) (v : ℕ) → store8 m p v p ≡ v % 256
  unfolding store8
  store8_self p v = rw (eq→== p p refl)

module _ (m : Mem) (p : Ptr) (v : ℕ) where
  pub store32_ne : (a : Ptr) → (a < p) ⊎ (p + 4 ≤ a) → store32 m p v a ≡ m a
  unfolding store32
  store32_ne a h = ground arith

  store32_bytes :
      (load8 (store32 m p v) p ≡ v % 256)
      × (load8 (store32 m p v) (p + 1) ≡ v / 256 % 256)
      × (load8 (store32 m p v) (p + 2) ≡ v / 65536 % 256)
      × (load8 (store32 m p v) (p + 3) ≡ v / 16777216 % 256)
  unfolding store32 load8
  store32_bytes = (ground arith, ground arith, ground arith, ground arith)

  pub load32-store32_self : load32 (store32 m p v) p ≡ v % 2 ^ 32
  unfolding load32
  load32-store32_self = omega (arith, store32_bytes)

  pub load32-store32_ne : (a : Ptr) → Apart a 4 p 4 → load32 (store32 m p v) a ≡ load32 m a
  unfolding load32 load8
  load32-store32_ne a h = omega (
    arith,
    store32_ne a (omega arith),
    store32_ne (a + 1) (omega arith),
    store32_ne (a + 2) (omega arith),
    store32_ne (a + 3) (omega arith),
  )

  pub load8-store32_ne : (a : Ptr) → Apart a 1 p 4 → load8 (store32 m p v) a ≡ load8 m a
  unfolding load8
  load8-store32_ne a h = omega (arith, store32_ne a (omega arith))

  pub load32-store8_ne : (a : Ptr) → Apart a 4 p 1 → load32 (store8 m p v) a ≡ load32 m a
  unfolding load32 load8
  load32-store8_ne a h = omega (
    arith,
    store8_ne m p v a (omega arith),
    store8_ne m p v (a + 1) (omega arith),
    store8_ne m p v (a + 2) (omega arith),
    store8_ne m p v (a + 3) (omega arith),
  )

  pub load8-store8_ne : (a : Ptr) → a ≢ p → load8 (store8 m p v) a ≡ load8 m a
  unfolding load8
  load8-store8_ne a h = omega (arith, store8_ne m p v a h)
