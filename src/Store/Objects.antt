-- ===== src/Store/Objects.antt =====
-- Two lists of objects that are all at distinct places.
use a_simple_microkernel.Prelude.{ℕ, List, [], ◌∷◌, ◌++◌, All, All-prefix, All-suffix}
use a_simple_microkernel.Store.{Ptr}
use a_simple_microkernel.Store.Laws.{Apart}
use a_simple_microkernel.Store.Chain.{Separate, Separate-mid, Separate-unlink}

pub Separate-cross :
    (n : ℕ) (xs ys : List Ptr) → Separate n (xs ++ ys) → All (λ x. All (λ y. Apart x n y n) ys) xs
Separate-cross n [] ys s = tt
Separate-cross n (x ∷ xs) ys (w, s) =
    (All-suffix (λ y. Apart x n y n) xs ys w, Separate-cross n xs ys s)

pub Separate-turned :
    (n : ℕ) (xs ys : List Ptr) → Separate n (xs ++ ys) → All (λ y. All (λ x. Apart y n x n) xs) ys
Separate-turned n xs [] s = tt
Separate-turned n xs (y ∷ ys) s = (
  All-prefix (λ x. Apart y n x n) xs ys (Separate-mid n xs y ys s),
  Separate-turned n xs ys (Separate-unlink n xs y ys s),
)
