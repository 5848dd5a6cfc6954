-- ===== src/Lifecycle/Copy.antt =====
-- The two copying loops of `fork_proc`: the stack, downwards from its top, and the frame.
use a_simple_microkernel.Prelude.{
  ℕ, zero, suc, ◌+◌, ◌-◌, ◌%◌, ◌^◌, ◌≤◌, ◌<◌, ◌≡◌, refl, ap, ◌∙◌, arith, ◌⊎◌, ℕ_discrete,
}
use a_simple_microkernel.Store.{Ptr, Mem, load8, load32, store8}
use a_simple_microkernel.Store.Laws.{Apart, load8-store8_self, load8-store8_ne, load8-lt}
use a_simple_microkernel.Lifecycle.{copy_stack, copy_struct}

-- A word determines its first byte.
pub load8-eq : (m n : Mem) (a : Ptr) → load32 m a ≡ load32 n a → load8 m a ≡ load8 n a
unfolding load32
load8-eq m n a h = omega (arith, h, load8-lt m a, load8-lt n a)

-- A word is read from four bytes.
pub load32-eq :
    (m n : Mem) (a b : Ptr)
    → ((k : ℕ) → k < 4 → load8 m (a + k) ≡ load8 n (b + k))
    → load32 m a ≡ load32 n b
unfolding load32
load32-eq m n a b h =
    let h0 : load8 m a ≡ load8 n b =
      ap (load8 m) (omega arith) ∙ h 0 (omega arith) ∙ ap (load8 n) (omega arith) in
    omega (arith, h0, h 1 (omega arith), h 2 (omega arith), h 3 (omega arith))

-- The place of the write with `i` bytes left.
below : (dst i : ℕ) → i ≤ dst → dst < 2 ^ 32 → (dst + 2 ^ 32 - i) % 2 ^ 32 ≡ dst - i
below dst i h lt = omega arith

module _ (dst src : Ptr) (word : dst < 2 ^ 32) (word' : src < 2 ^ 32) where
  pub copy_stack_ne :
      (i : ℕ) (m : Mem) (a : Ptr)
      → i ≤ dst
      → (a + i < dst) ⊎ (dst ≤ a)
      → load8 (copy_stack i m dst src) a ≡ load8 m a
  unfolding copy_stack
  copy_stack_ne zero m a h g = refl
  copy_stack_ne (suc i) m a h g =
      let at : (dst + 2 ^ 32 - suc i) % 2 ^ 32 ≡ dst - suc i = below dst (suc i) h word in
      rw at (
        copy_stack_ne i _ a (omega arith) (omega arith)
        ∙ load8-store8_ne m (dst - suc i) _ a (λ e. absurd (omega arith)))

  -- The byte at distance `k` from the top of the copy is the one at that distance from the top of
  -- the original, when the two have no byte in common.
  pub copy_stack_lem :
      (i : ℕ) (m : Mem) (k : ℕ)
      → i ≤ dst
      → i ≤ src
      → Apart (dst - i) i (src - i) i
      → 0 < k
      → k ≤ i
      → load8 (copy_stack i m dst src) (dst - k) ≡ load8 m (src - k)
  unfolding copy_stack
  copy_stack_lem zero m k h h' a pos_ le = absurd (omega arith)
  copy_stack_lem (suc i) m k h h' a pos_ le =
      let at = below dst (suc i) h word in
      let from = below src (suc i) h' word' in
      elim (ℕ_discrete k (suc i)) [
        | yes e ↦
            rw (e, at, from)
              (copy_stack_ne i _ (dst - suc i) (omega arith) (omega arith)
                ∙ load8-store8_self m (dst - suc i) (load8 m (src - suc i))
                ∙ omega (arith, load8-lt m (src - suc i)))
        | no ne ↦
            rw (at, from)
              (copy_stack_lem i _ k (omega arith) (omega arith) (omega arith) pos_ (omega arith)
                ∙ load8-store8_ne m (dst - suc i) _ (src - k) (λ e. absurd (omega arith)))
      ]

pub copy_struct_ne :
    (n : ℕ) (m : Mem) (dst src a : Ptr)
    → (a < dst) ⊎ (dst + n ≤ a)
    → load8 (copy_struct n m dst src) a ≡ load8 m a
unfolding copy_struct
copy_struct_ne zero m dst src a h = refl
copy_struct_ne (suc n) m dst src a h =
    copy_struct_ne n (store8 m dst (load8 m src)) (dst + 1) (src + 1) a (omega arith)
    ∙ load8-store8_ne m dst _ a (λ e. absurd (omega arith))

pub copy_struct_lem :
    (n : ℕ) (m : Mem) (dst src k : ℕ)
    → Apart dst n src n
    → k < n
    → load8 (copy_struct n m dst src) (dst + k) ≡ load8 m (src + k)
unfolding copy_struct
copy_struct_lem zero m dst src k a h = absurd (omega arith)
copy_struct_lem (suc n) m dst src k a h = elim (ℕ_discrete k 0) [
  | yes z ↦
      let at : dst + k ≡ dst = omega arith in
      let from : src + k ≡ src = omega arith in
      rw (at, from)
        (copy_struct_ne n (store8 m dst (load8 m src)) (dst + 1) (src + 1) dst (omega arith)
          ∙ load8-store8_self m dst (load8 m src)
          ∙ omega (arith, load8-lt m src))
  | no ne ↦
      let at : dst + k ≡ dst + 1 + (k - 1) = omega arith in
      let from : src + 1 + (k - 1) ≡ src + k = omega arith in
      rw at (
        copy_struct_lem n (store8 m dst (load8 m src)) (dst + 1) (src + 1) (k - 1) (omega arith)
          (omega arith)
        ∙ load8-store8_ne m dst _ (src + 1 + (k - 1)) (λ e. absurd (omega arith))
        ∙ ap (load8 m) from)
]
