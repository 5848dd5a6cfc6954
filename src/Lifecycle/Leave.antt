-- ===== src/Lifecycle/Leave.antt =====
-- A process that ends leaves its parent's children.
use a_simple_microkernel.Prelude.{
  ℕ, ◌+◌, ◌<◌, ◌≡◌, ◌≢◌, refl, ap, ◌∙◌, List, [], ◌∷◌, ◌++◌, some, arith, All, All-map, length,
  ne→==, eq→==, ◌==◌, last_or,
}
use a_simple_microkernel.Store.{Ptr, null, Mem, load32, store32}
use a_simple_microkernel.Store.Laws.{Apart, load32-lt, load32-store32_self, load32-store32_ne}
use a_simple_microkernel.Store.Chain.{
  before, since, walk-Chain, Chain, Away, Away-at, Chain-frame, Chain-suffix, Chain-unlink,
  Same-store32, Separate, Separate-Spaced, Separate-mid,
}
use a_simple_microkernel.Lifecycle.{leave}

-- A process that is apart from a list of others is none of them.
since-absent :
    (t : Ptr) (xs : List Ptr) → All (λ y. Apart t 44 y 44) xs → since (λ x. x == t) xs ≡ []
unfolding since
since-absent t [] w = refl
since-absent t (x ∷ xs) (w, ws) = rw (ne→== x t (omega arith)) (since-absent t xs ws)

since-present :
    (t : Ptr) (ys zs : List Ptr)
    → All (λ y. Apart t 44 y 44) (ys ++ zs)
    → (before (λ x. x == t) (ys ++ t ∷ zs) ≡ ys) × (since (λ x. x == t) (ys ++ t ∷ zs) ≡ t ∷ zs)
unfolding since before
since-present t [] zs w = rw (eq→== t t refl) (refl, refl)
since-present t (y ∷ ys) zs (w, ws) =
    let (b, c) = since-present t ys zs ws in rw (ne→== y t (omega arith)) (ap (λ l. y ∷ l) b, c)

module _ (f : ℕ) (m : Mem) (t : Ptr) where
  abbrev parent : Ptr
  parent = load32 m (t + 16)

  -- The parent's children are `xs`, where they were `ws`, and no other words are written.
  abbrev Without : List Ptr → List Ptr → Type 0
  Without ws xs =
      (m' : Mem) × (leave f m t ≡ some m')
      × Chain 24 m' (load32 m' (parent + 28)) xs
      × ((b : Ptr) → Apart b 4 (parent + 28) 4 → Away 24 b ws → load32 m' b ≡ load32 m b)

  links-Away : (xs : List Ptr) → All (λ y. Apart parent 44 y 44) xs → Away 24 (parent + 28) xs
  links-Away xs w =
      All-map (λ y. Apart parent 44 y 44) (λ y. Apart (y + 24) 4 (parent + 28) 4)
        (λ y h. omega arith) xs w

  -- The first child.
  leave-first :
      (zs : List Ptr)
      → Chain 24 m (load32 m (parent + 28)) (t ∷ zs)
      → Separate 44 (t ∷ zs)
      → All (λ y. Apart parent 44 y 44) (t ∷ zs)
      → length zs < f
      → Without (t ∷ zs) zs
  unfolding leave
  leave-first zs (e, ne, c) (s, ss) (w, ws) lt =
      let k = store32 m (parent + 28) (load32 m (t + 24)) in
      let head : load32 k (parent + 28) ≡ load32 m (t + 24) =
        load32-store32_self m (parent + 28) _ ∙ omega (arith, load32-lt m (t + 24)) in
      let chain : Chain 24 k (load32 m (t + 24)) zs =
        Chain-frame 24 m k zs (load32 m (t + 24)) c
          (Same-store32 24 m (parent + 28) _ zs (links-Away zs ws)) in
      (
        k,
        rw
            (
              eq→== (load32 m (parent + 28)) t e,
              head,
              walk-Chain 24 (λ x. x == t) f k null (load32 m (t + 24)) zs chain lt,
              since-absent t zs s,
            )
            refl,
        rw head chain,
        λ b h w'. load32-store32_ne m (parent + 28) _ b h,
      )

  -- A later child.
  leave-later :
      (y : Ptr) (ys zs : List Ptr)
      → Chain 24 m (load32 m (parent + 28)) (y ∷ ys ++ t ∷ zs)
      → Separate 44 (y ∷ ys ++ t ∷ zs)
      → All (λ x. Apart parent 44 x 44) (y ∷ ys ++ t ∷ zs)
      → length (y ∷ ys ++ t ∷ zs) < f
      → Without (y ∷ ys ++ t ∷ zs) (y ∷ ys ++ zs)
  unfolding leave
  leave-later y ys zs c s w lt =
      let mid = Separate-mid 44 (y ∷ ys) t zs s in
      let found = since-present t (y ∷ ys) zs mid in
      let other : load32 m (parent + 28) ≢ t = λ e. absurd (omega (arith, mid.0, c.0)) in
      let there : t ≢ null = (Chain-suffix 24 m (y ∷ ys) (t ∷ zs) (load32 m (parent + 28)) c).1 in
      let m' = store32 m (last_or y ys + 24) (load32 m (t + 24)) in
      let head : load32 m' (parent + 28) ≡ load32 m (parent + 28) =
        load32-store32_ne m (last_or y ys + 24) _ (parent + 28)
          (Away-at 24 (parent + 28) y ys (t ∷ zs) (links-Away (y ∷ ys ++ t ∷ zs) w)) in
      (
        m',
        rw
            (
              ne→== (load32 m (parent + 28)) t other,
              walk-Chain 24 (λ x. x == t) f m null (load32 m (parent + 28)) (y ∷ ys ++ t ∷ zs) c lt,
              found.0,
              found.1,
              ne→== t 0 there,
            )
            refl,
        rw head (
            Chain-unlink 24 m y ys t zs (load32 m (parent + 28)) c
              (Separate-Spaced 44 24 (y ∷ ys ++ t ∷ zs) (omega arith) s)),
        λ b h w'. load32-store32_ne m (last_or y ys + 24) _ b (Away-at 24 b y ys (t ∷ zs) w'),
      )

  -- A process among its parent's children is taken out of them, and the others stay in order, if the
  -- entries of the children and of the parent are apart and the fuel is greater than their number.
  pub leave-Chain :
      (ys zs : List Ptr)
      → Chain 24 m (load32 m (parent + 28)) (ys ++ t ∷ zs)
      → Separate 44 (ys ++ t ∷ zs)
      → All (λ x. Apart parent 44 x 44) (ys ++ t ∷ zs)
      → length (ys ++ t ∷ zs) < f
      → Without (ys ++ t ∷ zs) (ys ++ zs)
  leave-Chain [] zs c s w lt = leave-first zs c s w (omega arith)
  leave-Chain (y ∷ ys) zs c s w lt = leave-later y ys zs c s w lt
