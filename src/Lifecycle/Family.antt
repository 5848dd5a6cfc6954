-- ===== src/Lifecycle/Family.antt =====
-- The children of the init process when one of them ends.
use a_simple_microkernel.Prelude.{
  ℕ, ◌+◌, ◌<◌, ◌≡◌, refl, sym, ap, subst, ◌∙◌, List, [], ◌∷◌, ◌++◌, some, arith, All, All-map,
  length,
}
use a_simple_microkernel.Store.{Ptr, Mem, load32}
use a_simple_microkernel.Store.Laws.{Apart}
use a_simple_microkernel.Store.Chain.{Chain, Away, Separate}
use a_simple_microkernel.Lifecycle.{adopt, leave}
use a_simple_microkernel.Lifecycle.Adopt.{Entries, turned_onto, All-cons, adopt-family}
use a_simple_microkernel.Lifecycle.Leave.{leave-Chain}

turned_onto-append : (xs ys zs : List Ptr) → turned_onto xs (ys ++ zs) ≡ turned_onto xs ys ++ zs
turned_onto-append [] ys zs = refl
turned_onto-append (x ∷ xs) ys zs = turned_onto-append xs (x ∷ ys) zs

length-turned_onto : (xs ys : List Ptr) → length (turned_onto xs ys) ≡ length xs + length ys
length-turned_onto [] ys = omega arith
length-turned_onto (x ∷ xs) ys = omega (arith, length-turned_onto xs (x ∷ ys))

pub All-turned_onto :
    (P : Ptr → Type 0) (xs ys : List Ptr) → All P xs → All P ys → All P (turned_onto xs ys)
All-turned_onto P [] ys v w = w
All-turned_onto P (x ∷ xs) ys (v, vs) w = All-turned_onto P xs (x ∷ ys) vs (v, w)

pub All-mid :
    (P : Ptr → Type 0) (ys : List Ptr) (t : Ptr) (zs : List Ptr) → All P (ys ++ t ∷ zs) → P t
All-mid P [] t zs (w, ws) = w
All-mid P (y ∷ ys) t zs (w, ws) = All-mid P ys t zs ws

pub All-three :
    (P Q R S : Ptr → Type 0)
    → ((x : Ptr) → P x → Q x → R x → S x)
    → (xs : List Ptr) → All P xs
    → All Q xs
    → All R xs
    → All S xs
All-three P Q R S f [] u v w = tt
All-three P Q R S f (x ∷ xs) (u, us) (v, vs) (w, ws) = (f x u v w, All-three P Q R S f xs us vs ws)

pub All-insert :
    (P : Ptr → Type 0) (ys : List Ptr) (t : Ptr) (zs : List Ptr)
    → All P (ys ++ zs)
    → P t
    → All P (ys ++ t ∷ zs)
All-insert P [] t zs w h = (h, w)
All-insert P (y ∷ ys) t zs (w, ws) h = (w, All-insert P ys t zs ws h)

pub Entries-Separate : (root : Ptr) (xs : List Ptr) → Entries root xs → Separate 44 xs
Entries-Separate root [] e = tt
Entries-Separate root (x ∷ xs) (a, lt, d, e) = (d, Entries-Separate root xs e)

pub Entries-root : (root : Ptr) (xs : List Ptr) → Entries root xs → All (λ x. Apart root 44 x 44) xs
Entries-root root [] e = tt
Entries-root root (x ∷ xs) (a, lt, d, e) = (omega arith, Entries-root root xs e)

turned_onto-Separate :
    (root : Ptr) (xs ys : List Ptr)
    → Entries root xs
    → Separate 44 ys
    → All (λ x. All (λ y. Apart x 44 y 44) ys) xs
    → Separate 44 (turned_onto xs ys)
turned_onto-Separate root [] ys e s c = s
turned_onto-Separate root (x ∷ xs) ys (a, lt, d, e) s (c, cs) =
    turned_onto-Separate root xs (x ∷ ys) e (c, s) (All-cons x xs ys d cs)

-- The process at `t` has the children `xs`, and the init process at `root` has the children `ys`, then
-- `t`, then `zs`. The entries do not overlap.
pub record Family (m : Mem) (root t : Ptr) (xs ys zs : List Ptr) : Type 0 where
  pub parent : load32 m (t + 16) ≡ root
  pub children : Chain 24 m (load32 m (t + 28)) xs
  pub siblings : Chain 24 m (load32 m (root + 28)) (ys ++ t ∷ zs)
  pub own : Entries root xs
  pub others : Entries root (ys ++ t ∷ zs)
  pub cross : All (λ x. All (λ y. Apart x 44 y 44) (ys ++ t ∷ zs)) xs

module _ (f : ℕ) (m : Mem) (root t : Ptr) (xs ys zs : List Ptr) (g : Family m root t xs ys zs) where
  abbrev all : List Ptr
  all = turned_onto xs ys ++ t ∷ zs

  all-eq : turned_onto xs (ys ++ t ∷ zs) ≡ all
  all-eq = turned_onto-append xs ys (t ∷ zs)

  all-Separate : Separate 44 all
  all-Separate = subst (Separate 44) all-eq (
      turned_onto-Separate root xs (ys ++ t ∷ zs) g.own
        (Entries-Separate root (ys ++ t ∷ zs) g.others) g.cross)

  pub All-all : (P : Ptr → Type 0) → All P xs → All P (ys ++ t ∷ zs) → All P all
  All-all P v w = subst (All P) all-eq (All-turned_onto P xs (ys ++ t ∷ zs) v w)

  pub apart-target : All (λ x. Apart x 44 t 44) xs
  apart-target =
      All-map (λ x. All (λ y. Apart x 44 y 44) (ys ++ t ∷ zs)) (λ x. Apart x 44 t 44)
        (λ x w. All-mid (λ y. Apart x 44 y 44) ys t zs w) xs g.cross

  pub target-root : Apart root 44 t 44
  target-root =
      All-mid (λ y. Apart root 44 y 44) ys t zs (Entries-root root (ys ++ t ∷ zs) g.others)

  pub family-left :
      length xs + length (ys ++ t ∷ zs) < f
      → (m1 m2 : Mem) × (adopt f m root (load32 m (t + 28)) ≡ some m1)
        × (leave f m1 t ≡ some m2)
        × Chain 24 m2 (load32 m2 (root + 28)) (turned_onto xs ys ++ zs)
        × ((b : Ptr)
            → Away 24 b xs
            → Away 24 b (ys ++ t ∷ zs)
            → Apart b 4 (root + 28) 5
            → load32 m2 b ≡ load32 m b)
  family-left lt =
      let (m1, run1, chain1, kept1) =
        adopt-family f m root (load32 m (t + 28)) xs (ys ++ t ∷ zs) g.children g.siblings g.own
          g.others g.cross (omega arith) in
      let same : load32 m1 (t + 16) ≡ root =
        kept1 (t + 16)
          (All-map (λ x. Apart x 44 t 44) (λ x. Apart (x + 24) 4 (t + 16) 4) (λ x h. omega arith) xs
            apart-target)
          (omega (arith, target-root))
        ∙ g.parent in
      let few : length all < f =
        omega (arith, ap length (sym all-eq), length-turned_onto xs (ys ++ t ∷ zs)) in
      let (m2, run2, chain2, kept2) =
        leave-Chain f m1 t (turned_onto xs ys) zs
          (rw same (subst (Chain 24 m1 (load32 m1 (root + 28))) all-eq chain1)) all-Separate
          (rw same (
            All-all (λ x. Apart root 44 x 44) (Entries-root root xs g.own)
              (Entries-root root (ys ++ t ∷ zs) g.others)))
          few in
      (
        m1,
        m2,
        run1,
        run2,
        subst (λ r. Chain 24 m2 (load32 m2 (r + 28)) (turned_onto xs ys ++ zs)) same chain2,
        λ b v w h.
            kept2 b (rw same (omega arith)) (All-all (λ x. Apart (x + 24) 4 b 4) v w) ∙ kept1 b v h,
      )
