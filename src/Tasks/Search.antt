-- ===== src/Tasks/Search.antt =====
-- What the searches of src/common/tests.cpp find.
use native.Mathlib.Nat.{pow-suc}
use a_simple_microkernel.Prelude.{
  ℕ, zero, suc, ◌+◌, ◌-◌, ◌*◌, ◌/◌, ◌%◌, ◌^◌, ◌≤◌, ◌<◌, ◌≡◌, ◌≢◌, refl, sym, ap, subst, ◌∙◌, ℤ,
  eq_ℤ, lt_ℤ, true, false, Option, some, arith, eq_ℤ→eq, eq_ℤ-refl, lt_ℤ-total, Bool-cases,
  lt_ℤ-asym, ℕ_discrete, dec_lt, ne→==, inl, inr, ◌⊎◌,
}
use mathlib.Core.Bool.{true≢false}
use a_simple_microkernel.Tasks.{binary_search, linear_search, linear_search_from}

-- The elements below an index never fall.
abbrev pub Rising : (ℕ → ℤ) → ℕ → Type 0
Rising arr len = (i j : ℕ) → i ≤ j → j < len → lt_ℤ (arr j) (arr i) ≡ false

half_of : (k : ℕ) → 2 ^ suc k / 2 ≡ 2 ^ k
half_of k = omega (arith, pow-suc 2 k)

positive : (k : ℕ) → 0 < 2 ^ k
positive zero = omega arith
positive (suc k) = omega (arith, pow-suc 2 k, positive k)

module _ (f len : ℕ) (arr : ℕ → ℤ) (target : ℤ) (some_left : len ≢ 0) where
  search-here :
      eq_ℤ (arr (len / 2)) target ≡ true → binary_search (suc f) arr len target ≡ some (len / 2)
  unfolding binary_search
  search-here here = rw (ne→== len 0 some_left, here)

  search-low :
      eq_ℤ (arr (len / 2)) target ≡ false
      → lt_ℤ target (arr (len / 2)) ≡ true
      → binary_search (suc f) arr len target ≡ binary_search f arr (len / 2) target
  unfolding binary_search
  search-low away low = rw (ne→== len 0 some_left, away, low)

  search-high :
      eq_ℤ (arr (len / 2)) target ≡ false
      → lt_ℤ target (arr (len / 2)) ≡ false
      → (r : ℕ) → binary_search f (λ i. arr (len / 2 + i)) (len / 2) target ≡ some r
      → binary_search (suc f) arr len target ≡ some ((len / 2 + r) % 2 ^ 32)
  unfolding binary_search
  search-high away high r h = rw (ne→== len 0 some_left, away, high, h)

search-empty :
    (f : ℕ) (arr : ℕ → ℤ) (target : ℤ) → binary_search (suc f) arr 0 target ≡ some (2 ^ 32 - 1)
unfolding binary_search
search-empty f arr target = refl

-- An index that the search does not stop at lies in the half that it goes on with.
module _ (arr : ℕ → ℤ) (len half n : ℕ) (rising : Rising arr len) (lt : n < len)
    (in_ : half < len) where
  low-half : lt_ℤ (arr n) (arr half) ≡ true → n < half
  low-half low = elim (dec_lt n half) [
    | yes l ↦ l
    | no g ↦ absurd (true≢false (sym low ∙ rising half n (omega arith) lt))
  ]

  high-half : eq_ℤ (arr half) (arr n) ≡ false → lt_ℤ (arr n) (arr half) ≡ false → half ≤ n
  high-half away high = elim (dec_lt n half) [
    | yes l ↦
        let same = lt_ℤ-total (arr half) (arr n) (rising n half (omega arith) in_) high in
        absurd
          (true≢false (sym (eq_ℤ-refl (arr n)) ∙ subst (λ z. eq_ℤ z (arr n) ≡ false) same away))
    | no g ↦ omega arith
  ]

-- What a search for the element at `n` promises.
abbrev pub Found : Option ℕ → (ℕ → ℤ) → ℕ → ℤ → Type 0
Found o arr len target = (r : ℕ) × (o ≡ some r) × (r < len) × (arr r ≡ target)

-- In a sorted array whose length is a power of two, `binary_search` finds a place of every element
-- that the array has.
pub binary_search-Found :
    (k : ℕ) (arr : ℕ → ℤ) (n : ℕ)
    → Rising arr (2 ^ k)
    → n < 2 ^ k
    → 2 ^ k < 2 ^ 32
    → Found (binary_search (suc k) arr (2 ^ k) (arr n)) arr (2 ^ k) (arr n)
binary_search-Found zero arr n rising lt h =
    let z : n ≡ 0 = omega arith in
    rw z (0, search-here 0 1 arr (arr 0) (omega arith) (eq_ℤ-refl (arr 0)), omega arith, refl)
binary_search-Found (suc k) arr n rising lt h =
    let len = 2 ^ suc k in
    let half = len / 2 in
    let e : half ≡ 2 ^ k = half_of k in
    let double : len ≡ 2 ^ k * 2 = omega (arith, pow-suc 2 k) in
    let some_left : len ≢ 0 = (λ z. absurd (omega (arith, positive k))) in
    let in_ : half < len = omega (arith, positive k) in
    elim (Bool-cases (eq_ℤ (arr half) (arr n))) [
      | inl here ↦ (
        half,
        search-here (suc k) len arr (arr n) some_left here,
        in_,
        eq_ℤ→eq (arr half) (arr n) here,
      )
      | inr away ↦ elim (Bool-cases (lt_ℤ (arr n) (arr half))) [
        | inl low ↦
            let l = low-half arr len half n rising lt in_ low in
            let (r, run, below, same) =
              subst (λ x. Found (binary_search (suc k) arr x (arr n)) arr x (arr n)) (sym e)
                (binary_search-Found k arr n (λ i j le lj. rising i j le (omega arith))
                  (omega arith) (omega arith)) in
            (r, search-low (suc k) len arr (arr n) some_left away low ∙ run, omega arith, same)
        | inr high ↦
            let g = high-half arr len half n rising lt in_ away high in
            let upper : ℕ → ℤ = λ i. arr (half + i) in
            let index : half + (n - half) ≡ n = omega arith in
            let (r, run, below, same) =
              subst (λ x. Found (binary_search (suc k) upper x (arr n)) upper x (arr n)) (sym e)
                (subst
                  (λ x. Found (binary_search (suc k) upper (2 ^ k) (arr x)) upper (2 ^ k) (arr x))
                  index
                  (binary_search-Found k upper (n - half)
                    (λ i j le lj. rising (half + i) (half + j) (omega arith) (omega arith))
                    (omega arith) (omega arith))) in
            (
              half + r,
              search-high (suc k) len arr (arr n) some_left away high r run ∙ ap some (omega arith),
              omega arith,
              same,
            )
      ]
    ]

-- The number of ones among the lowest `k` binary digits.
unfoldable pub ones : (k : ℕ) → ℕ → ℕ
ones zero n = 0
ones (suc k) n = n % 2 + ones k (n / 2)

ones-le : (k n : ℕ) → ones k n ≤ n
unfolding ones
ones-le zero n = omega arith
ones-le (suc k) n = omega (arith, ones-le k (n / 2))

ones-zero : (k : ℕ) → ones k 0 ≡ 0
ones-zero k = omega (arith, ones-le k 0)

ones-lt : (k n : ℕ) → 2 ≤ n → ones k n + 1 ≤ n
unfolding ones
ones-lt zero n h = omega arith
ones-lt (suc k) n h = omega (arith, ones-le k (n / 2))

few_ones : (k n : ℕ) → n < 2 ^ k → n ≤ 1 → ones k n ≡ n
unfolding ones
few_ones zero n fits h = omega arith
few_ones (suc k) n fits h = omega (arith, ones-le k (n / 2))

absent-run :
    (k len : ℕ) (arr : ℕ → ℤ) (target : ℤ)
    → len < 2 ^ k
    → len < 2 ^ 32
    → ((i : ℕ) → i < len → lt_ℤ (arr i) target ≡ true)
    → binary_search (suc k) arr len target ≡ some ((len + 2 ^ 32 - ones k len - 1) % 2 ^ 32)
unfolding ones
absent-run zero len arr target fits word small =
    let z : len ≡ 0 = omega arith in rw z (search-empty 0 arr target)
absent-run (suc k) len arr target fits word small = elim (ℕ_discrete len 0) [
  | yes z ↦ rw z (search-empty (suc k) arr target ∙ ap some (omega (arith, ones-zero k)))
  | no ne ↦
      let half : ℕ = len / 2 in
      let double : len < 2 ^ k * 2 = omega (arith, pow-suc 2 k) in
      let (away, high) = lt_ℤ-asym (arr half) target (small half (omega arith)) in
      let upper : ℕ → ℤ = λ i. arr (half + i) in
      let rest =
        absent-run k half upper target (omega arith) (omega arith)
          (λ i l. small (half + i) (omega arith)) in
      search-high (suc k) len arr target ne away high ((half + 2 ^ 32 - ones k half - 1) % 2 ^ 32)
        rest
      ∙ ap some (omega (arith, ones-le k half))
]

-- What a search gives for a target that the array does not have.
abbrev pub Missed : Option ℕ → (k len : ℕ) → Type 0
Missed o k len =
    ((len ≤ 1) × (o ≡ some (2 ^ 32 - 1)))
    ⊎ ((2 ≤ len) × ((r : ℕ) × (o ≡ some r) × (r + ones k len + 1 ≡ len)))

-- When every element of an array, of any length that is a word and has at most `k` binary digits,
-- is smaller than the target, `binary_search` returns with `k + 1` calls at most. The result is -1
-- only for an array of no or one element. For any longer one it is the length less one and less the
-- ones among the length's binary digits, the index of an element.
pub binary_search-absent :
    (k len : ℕ) (arr : ℕ → ℤ) (target : ℤ)
    → len < 2 ^ k
    → len < 2 ^ 32
    → ((i : ℕ) → i < len → lt_ℤ (arr i) target ≡ true)
    → Missed (binary_search (suc k) arr len target) k len
binary_search-absent k len arr target fits word small =
    let run = absent-run k len arr target fits word small in
    elim (dec_lt 1 len) [
      | yes h ↦ inr (
        h,
        (
          len - ones k len - 1,
          run ∙ ap some (omega (arith, ones-lt k len)),
          omega (arith, ones-lt k len),
        ),
      )
      | no h ↦ inl (omega arith, run ∙ ap some (omega (arith, few_ones k len)))
    ]

linear_search_from-first :
    (arr : ℕ → ℤ) (target : ℤ) (m i n : ℕ)
    → i ≤ n
    → n < i + m
    → ((j : ℕ) → j < n → eq_ℤ (arr j) target ≡ false)
    → eq_ℤ (arr n) target ≡ true
    → linear_search_from arr m i target ≡ n
unfolding linear_search_from
linear_search_from-first arr target zero i n le lt before here = absurd (omega arith)
linear_search_from-first arr target (suc m) i n le lt before here = elim (ℕ_discrete i n) [
  | yes e ↦ rw (e, here) refl
  | no ne ↦
      rw (before i (omega arith))
        (linear_search_from-first arr target m (i + 1) n (omega arith) (omega arith) before here)
]

-- `linear_search` returns the first index whose element is the target, if the array has one.
pub linear_search-first :
    (arr : ℕ → ℤ) (target : ℤ) (len n : ℕ)
    → n < len
    → ((j : ℕ) → j < n → eq_ℤ (arr j) target ≡ false)
    → eq_ℤ (arr n) target ≡ true
    → linear_search arr len target ≡ n
unfolding linear_search
linear_search-first arr target len n lt before here =
    linear_search_from-first arr target len 0 n (omega arith) (omega arith) before here
