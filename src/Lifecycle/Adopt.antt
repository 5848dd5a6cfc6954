-- ===== src/Lifecycle/Adopt.antt =====
-- The children of a process that ends become the init process's.
use a_simple_microkernel.Prelude.{
  ℕ, zero, suc, ◌+◌, ◌^◌, ◌<◌, ◌≡◌, ◌≢◌, refl, ◌∙◌, List, [], ◌∷◌, some, arith, All, length, ne→==,
  eq→==,
}
use a_simple_microkernel.Store.{Ptr, null, Mem, load8, load32, store8, store32}
use a_simple_microkernel.Store.Laws.{
  Apart, load32-lt, load32-store32_self, load32-store32_ne, load32-store8_ne,
}
use a_simple_microkernel.Store.Chain.{Away, Chain, Chain-frame, Same}
use a_simple_microkernel.Lifecycle.{adopt}

-- The entries of a list are apart from one another and from the entry `root`.
abbrev pub Entries : Ptr → List Ptr → Type 0
Entries root [] = Unit
Entries root (x ∷ xs) =
    Apart x 44 root 44 × (x < 2 ^ 32) × All (λ y. Apart x 44 y 44) xs × Entries root xs

-- `xs` turned round, in front of `ys`.
abbrev pub turned_onto : List Ptr → List Ptr → List Ptr
turned_onto [] ys = ys
turned_onto (x ∷ xs) ys = turned_onto xs (x ∷ ys)

-- One round of the loop.
abbrev pub adopted : Mem → (root child : Ptr) → Mem
adopted m root child =
    let m1 = store32 m (child + 24) (load32 m (root + 28)) in
    let m2 = store32 m1 (root + 28) child in store8 m2 (root + 32) (load8 m2 (root + 32) + 1)

adopt-suc :
    (f : ℕ) (m : Mem) (root child : Ptr)
    → child ≢ null
    → adopt (suc f) m root child ≡ adopt f (adopted m root child) root (load32 m (child + 24))
unfolding adopt
adopt-suc f m root child h = rw (ne→== child 0 h)

word-kept :
    (m : Mem) (root x b : Ptr)
    → Apart (x + 24) 4 b 4
    → Apart b 4 (root + 28) 5
    → load32 (adopted m root x) b ≡ load32 m b
word-kept m root x b v g =
    load32-store8_ne _ (root + 32) _ b (omega arith)
    ∙ load32-store32_ne _ (root + 28) x b (omega arith)
    ∙ load32-store32_ne m (x + 24) _ b (omega arith)

module _ (m : Mem) (root x : Ptr) (apart : Apart x 44 root 44) (word : x < 2 ^ 32) where
  sibling-kept :
      (y : Ptr)
      → Apart x 44 y 44
      → Apart y 44 root 44
      → load32 (adopted m root x) (y + 24) ≡ load32 m (y + 24)
  sibling-kept y h g =
      load32-store8_ne _ (root + 32) _ (y + 24) (omega arith)
      ∙ load32-store32_ne _ (root + 28) x (y + 24) (omega arith)
      ∙ load32-store32_ne m (x + 24) _ (y + 24) (omega arith)

  new_sibling : load32 (adopted m root x) (x + 24) ≡ load32 m (root + 28)
  new_sibling =
      load32-store8_ne _ (root + 32) _ (x + 24) (omega arith)
      ∙ load32-store32_ne _ (root + 28) x (x + 24) (omega arith)
      ∙ load32-store32_self m (x + 24) _
      ∙ omega (arith, load32-lt m (root + 28))

  new_child : load32 (adopted m root x) (root + 28) ≡ x
  new_child =
      load32-store8_ne _ (root + 32) _ (root + 28) (omega arith)
      ∙ load32-store32_self _ (root + 28) x
      ∙ omega arith

  siblings_kept :
      (ys : List Ptr)
      → All (λ y. Apart x 44 y 44) ys
      → Entries root ys
      → Same 24 m (adopted m root x) ys
  siblings_kept [] a e = tt
  siblings_kept (y ∷ ys) (a, as') (e, w, d, es) = (sibling-kept y a e, siblings_kept ys as' es)

pub All-cons :
    (x : Ptr) (xs ys : List Ptr)
    → All (λ z. Apart x 44 z 44) xs
    → All (λ z. All (λ y. Apart z 44 y 44) ys) xs
    → All (λ z. All (λ y. Apart z 44 y 44) (x ∷ ys)) xs
All-cons x [] ys d a = tt
All-cons x (z ∷ xs) ys (d, ds) (a, as') = ((omega arith, a), All-cons x xs ys ds as')

pub adopt-family :
    (f : ℕ) (m : Mem) (root child : Ptr) (xs ys : List Ptr)
    → Chain 24 m child xs
    → Chain 24 m (load32 m (root + 28)) ys
    → Entries root xs
    → Entries root ys
    → All (λ x. All (λ y. Apart x 44 y 44) ys) xs
    → length xs < f
    → (m' : Mem) × (adopt f m root child ≡ some m')
      × Chain 24 m' (load32 m' (root + 28)) (turned_onto xs ys)
      × ((b : Ptr) → Away 24 b xs → Apart b 4 (root + 28) 5 → load32 m' b ≡ load32 m b)
unfolding adopt
adopt-family zero m root child xs ys c d ex ey a h = absurd (omega arith)
adopt-family (suc f) m root child [] ys c d ex ey a h = (m, rw (eq→== child 0 c), d, λ b w g. refl)
adopt-family (suc f) m root child (x ∷ xs) ys (e, ne, c) d (w, lt, dx, ex) ey (ax, axs) h =
    let n = adopted m root x in
    let (m', run, chain, kept) =
      adopt-family f n root (load32 m (x + 24)) xs (x ∷ ys)
        (Chain-frame 24 m n xs (load32 m (x + 24)) c (siblings_kept m root x w lt xs dx ex))
        (
          new_child m root x w lt,
          ne,
          rw (new_sibling m root x w lt) (
              Chain-frame 24 m n ys (load32 m (root + 28)) d
                (siblings_kept m root x w lt ys ax ey)),
        )
        ex (w, lt, ax, ey) (All-cons x xs ys dx axs) (omega arith) in
    (
      m',
      rw e (adopt-suc f m root x ne ∙ run),
      chain,
      λ b (v, vs) g. kept b vs g ∙ word-kept m root x b v g,
    )

-- Children `xs` are handed over to the init process, whose children are `ys`: afterwards its children
-- are all of them, those handed over first and in the opposite order, if all entries are apart and
-- the fuel is greater than the number of children handed over.
pub adopt-Chain :
    (f : ℕ) (m : Mem) (root child : Ptr) (xs ys : List Ptr)
    → Chain 24 m child xs
    → Chain 24 m (load32 m (root + 28)) ys
    → Entries root xs
    → Entries root ys
    → All (λ x. All (λ y. Apart x 44 y 44) ys) xs
    → length xs < f
    → (m' : Mem) × (adopt f m root child ≡ some m')
      × Chain 24 m' (load32 m' (root + 28)) (turned_onto xs ys)
adopt-Chain f m root child xs ys c d ex ey a h =
    let (m', run, chain, _) = adopt-family f m root child xs ys c d ex ey a h in (m', run, chain)
