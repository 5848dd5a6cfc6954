-- ===== src/Prelude/Lists.antt =====
-- Lists measured and indexed by native numbers.
use Prim.Native.Nat.{ℕ, zero, suc, ◌+◌, ◌<◌}
use mathlib.Core.Path.{◌≡◌}
use mathlib.Core.Bool.{Bool, true, ◌&&◌}
use mathlib.Core.List.{List, [], ◌∷◌, ◌++◌}
use mathlib.Core.Option.{Option, none, some}
use native.Mathlib.Omega.{arith}

module _ {ℓ} {A : Type ℓ} where
  abbrev pub length : List A → ℕ
  length [] = 0
  length (x ∷ xs) = suc (length xs)

  abbrev pub get_elem? : List A → ℕ → Option A
  get_elem? [] i = none
  get_elem? (x ∷ xs) zero = some x
  get_elem? (x ∷ xs) (suc i) = get_elem? xs i

  abbrev pub get_or : List A → ℕ → A → A
  get_or [] i d = d
  get_or (x ∷ xs) zero d = x
  get_or (x ∷ xs) (suc i) d = get_or xs i d

  -- The first element, or the default of the empty list.
  abbrev pub head_or : A → List A → A
  head_or d [] = d
  head_or d (x ∷ xs) = x

  -- The last element, or the default of the empty list.
  abbrev pub last_or : A → List A → A
  last_or d [] = d
  last_or d (x ∷ xs) = last_or x xs

  pub length-append : (xs ys : List A) → length (xs ++ ys) ≡ length xs + length ys
  length-append [] ys = omega arith
  length-append (x ∷ xs) ys = omega (arith, length-append xs ys)

  -- A predicate at every element.
  abbrev pub All {κ} : (A → Type κ) → List A → Type κ
  All P [] = Unit
  All P (x ∷ xs) = P x × All P xs

  pub All-map {κ} : (P Q : A → Type κ) → ((x : A) → P x → Q x) → (xs : List A) → All P xs → All Q xs
  All-map P Q f [] w = tt
  All-map P Q f (x ∷ xs) (w, ws) = (f x w, All-map P Q f xs ws)

  pub All-prefix {κ} : (P : A → Type κ) (xs ys : List A) → All P (xs ++ ys) → All P xs
  All-prefix P [] ys w = tt
  All-prefix P (x ∷ xs) ys (w, ws) = (w, All-prefix P xs ys ws)

  pub All-suffix {κ} : (P : A → Type κ) (xs ys : List A) → All P (xs ++ ys) → All P ys
  All-suffix P [] ys w = w
  All-suffix P (x ∷ xs) ys (w, ws) = All-suffix P xs ys ws

  pub All-unlink {κ} :
      (P : A → Type κ) (xs : List A) (t : A) (ys : List A) → All P (xs ++ t ∷ ys) → All P (xs ++ ys)
  All-unlink P [] t ys (w, ws) = ws
  All-unlink P (x ∷ xs) t ys (w, ws) = (w, All-unlink P xs t ys ws)

  -- The last element of a prefix.
  pub All-at {κ} :
      (P : A → Type κ) (y : A) (ys zs : List A) → All P (y ∷ ys ++ zs) → P (last_or y ys)
  All-at P y [] zs (w, ws) = w
  All-at P y (z ∷ ys) zs (w, ws) = All-at P z ys zs ws

-- A test of every element together with its index, counted from `i`.
unfoldable pub indexed : (ℕ → ℕ → Bool) → ℕ → List ℕ → Bool
indexed test i [] = true
indexed test i (x ∷ xs) = test i x && indexed test (i + 1) xs

pub get_or-indexed :
    (test : ℕ → ℕ → Bool) (i : ℕ) (xs : List ℕ) (k d : ℕ)
    → indexed test i xs ≡ true
    → k < length xs
    → test (i + k) (get_or xs k d) ≡ true
unfolding indexed
get_or-indexed test i [] k d e h = absurd (omega arith)
get_or-indexed test i (x ∷ xs) zero d e h = ground arith
get_or-indexed test i (x ∷ xs) (suc k) d e h = ground (arith, get_or-indexed test (i + 1) xs k d)
