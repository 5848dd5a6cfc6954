-- ===== src/Prelude/Int.antt =====
-- Signed integers over the native numbers: `negsuc n` is -(n + 1).
use Prim.Native.Nat.{ℕ, zero, suc, ◌+◌, compare, Ordering}
use mathlib.Core.Bool.{Bool, true, false}
use mathlib.Core.Path.{◌≡◌}
use native.Mathlib.Omega.{arith}

pub data ℤ : Type 0 where
  pos : ℕ → ℤ
  negsuc : ℕ → ℤ

abbrev pub suc_ℤ : ℤ → ℤ
suc_ℤ (pos n) = pos (n + 1)
suc_ℤ (negsuc zero) = pos 0
suc_ℤ (negsuc (suc n)) = negsuc n

abbrev pub pred_ℤ : ℤ → ℤ
pred_ℤ (pos zero) = negsuc 0
pred_ℤ (pos (suc n)) = pos n
pred_ℤ (negsuc n) = negsuc (n + 1)

abbrev pub eq_ℤ : ℤ → ℤ → Bool
eq_ℤ (pos a) (pos b) = elim (compare a b) [ Ordering.eq ↦ true | _ ↦ false ]
eq_ℤ (negsuc a) (negsuc b) = elim (compare a b) [ Ordering.eq ↦ true | _ ↦ false ]
eq_ℤ _ _ = false

-- `a ≤ z` for a number that is not negative.
abbrev pub le_ℤ : ℕ → ℤ → Bool
le_ℤ a (pos b) = elim (compare a b) [ Ordering.gt ↦ false | _ ↦ true ]
le_ℤ a (negsuc b) = false

abbrev pub lt_ℤ : ℤ → ℤ → Bool
lt_ℤ (pos a) (pos b) = elim (compare a b) [ Ordering.lt ↦ true | _ ↦ false ]
lt_ℤ (negsuc a) (negsuc b) = elim (compare b a) [ Ordering.lt ↦ true | _ ↦ false ]
lt_ℤ (negsuc a) (pos b) = true
lt_ℤ (pos a) (negsuc b) = false

pub eq_ℤ→eq : (a b : ℤ) → eq_ℤ a b ≡ true → a ≡ b
eq_ℤ→eq (pos a) (pos b) h = ground arith
eq_ℤ→eq (negsuc a) (negsuc b) h = ground arith
eq_ℤ→eq (pos a) (negsuc b) h = ground arith
eq_ℤ→eq (negsuc a) (pos b) h = ground arith

pub eq_ℤ-refl : (a : ℤ) → eq_ℤ a a ≡ true
eq_ℤ-refl (pos a) = ground arith
eq_ℤ-refl (negsuc a) = ground arith

-- One of two unequal integers is smaller.
pub lt_ℤ-total : (a b : ℤ) → lt_ℤ a b ≡ false → lt_ℤ b a ≡ false → a ≡ b
lt_ℤ-total (pos a) (pos b) h g = ground arith
lt_ℤ-total (negsuc a) (negsuc b) h g = ground arith
lt_ℤ-total (pos a) (negsuc b) h g = ground arith
lt_ℤ-total (negsuc a) (pos b) h g = ground arith

pub lt_ℤ-asym : (a b : ℤ) → lt_ℤ a b ≡ true → (eq_ℤ a b ≡ false) × (lt_ℤ b a ≡ false)
lt_ℤ-asym (pos a) (pos b) h = ground arith
lt_ℤ-asym (negsuc a) (negsuc b) h = ground arith
lt_ℤ-asym (pos a) (negsuc b) h = ground arith
lt_ℤ-asym (negsuc a) (pos b) h = ground arith
