-- ===== src/Tasks/Reading.antt =====
-- The loop with which the tasks read an array from a line.
use a_simple_microkernel.Prelude.{
  ℕ, zero, suc, ◌+◌, ◌-◌, ◌%◌, ◌^◌, ◌≤◌, ◌<◌, ◌≡◌, ◌≢◌, refl, sym, ap, ◌∙◌, ℤ, pos, true, false,
  lt→ltb, ◌==◌, ne→==, eq→==, dec_lt, Bool-cases, ◌⊎◌, inl, inr, ℕ_discrete, if◌then◌else◌, arith,
}
use a_simple_microkernel.Tasks.{is_digit, signed, number_at, skip, set_element, fill}

-- The first `n` digits of a line, at the indices `p 0`, `p 1` and so on.
pub record Digits (buffer : ℕ → ℕ) (n : ℕ) (p : ℕ → ℕ) : Type 0 where
  pub digit : (i : ℕ) → i < n → is_digit (buffer (p i)) ≡ true
  pub inside : (i : ℕ) → i < n → p i < 256
  pub rising : (i : ℕ) → i + 1 < n → p i < p (i + 1)
  pub between : (i k : ℕ) → i + 1 < n → p i < k → k < p (i + 1) → is_digit (buffer k) ≡ false

is_digit-ne : (c : ℕ) → is_digit c ≡ true → c ≢ 0
is_digit-ne c h = ground arith

skip-digit :
    (r j q : ℕ) (buffer : ℕ → ℕ)
    → j ≤ q
    → q ≤ j + r
    → q < 256
    → is_digit (buffer q) ≡ true
    → ((k : ℕ) → j ≤ k → k < q → is_digit (buffer k) ≡ false)
    → skip r buffer j ≡ q
unfolding skip
skip-digit zero j q buffer h g lt d w = omega arith
skip-digit (suc r) j q buffer h g lt d w = elim (ℕ_discrete j q) [
  | yes e ↦ rw (e, lt→ltb q 256 lt, d) refl
  | no ne ↦
      rw (lt→ltb j 256 (omega arith), w j (omega arith) (omega arith))
        (skip-digit r (j + 1) q buffer (omega arith) (omega arith) lt d
          (λ k a b. w k (omega arith) b))
]

module _ (array : ℕ → ℤ) (i : ℕ) (v : ℤ) where
  set_element_self : set_element array i v i ≡ v
  unfolding set_element
  set_element_self = rw (eq→== i i refl)

  set_element-ne : (k : ℕ) → k ≢ i → set_element array i v k ≡ array k
  unfolding set_element
  set_element-ne k ne = rw (ne→== k i ne)

-- What is read at index `j`.
abbrev value : (ℕ → ℕ) → ℕ → ℤ
value buffer j = signed (number_at buffer j (255 - j))

abbrev read : (ℕ → ℕ) → (ℕ → ℤ) → (i j : ℕ) → ℕ → ℤ
read buffer array i j = set_element (set_element array i (pos 0)) i (value buffer j)

-- A round of the loop at a digit.
fill-digit :
    (n : ℕ) (buffer : ℕ → ℕ) (array : ℕ → ℤ) (i j j' : ℕ)
    → is_digit (buffer j) ≡ true
    → j < 256
    → skip 256 buffer (j + 1) ≡ j'
    → fill (suc n) buffer array i j ≡ (
        if buffer j' == 0
        then read buffer array i j
        else fill n buffer (read buffer array i j) (i + 1) j')
unfolding fill
fill-digit n buffer array i j j' d lt e =
    let len : (255 + 2 ^ 16 - j % 2 ^ 16) % 2 ^ 16 ≡ 255 - j = omega arith in rw (e, d, len) refl

read_self : (buffer : ℕ → ℕ) (array : ℕ → ℤ) (i j : ℕ) → read buffer array i j i ≡ value buffer j
read_self buffer array i j = set_element_self (set_element array i (pos 0)) i (value buffer j)

read-ne : (buffer : ℕ → ℕ) (array : ℕ → ℤ) (i j k : ℕ) → k ≢ i → read buffer array i j k ≡ array k
read-ne buffer array i j k ne =
    set_element-ne (set_element array i (pos 0)) i (value buffer j) k ne
    ∙ set_element-ne array i (pos 0) k ne

module _ (buffer : ℕ → ℕ) (total : ℕ) (p : ℕ → ℕ) (d : Digits buffer total p) where
  fill-last :
      (array : ℕ → ℤ) (i : ℕ)
      → i + 1 ≡ total
      → fill 1 buffer array i (p i) ≡ read buffer array i (p i)
  fill-last array i e =
      fill-digit 0 buffer array i (p i) (skip 256 buffer (p i + 1)) (d.digit i (omega arith))
        (d.inside i (omega arith)) refl
      ∙ elim (Bool-cases (buffer (skip 256 buffer (p i + 1)) == 0)) [
        | inl h ↦ rw h refl
        | inr h ↦ rw h (unfold fill in refl)
      ]

  fill-next :
      (n : ℕ) (array : ℕ → ℤ) (i : ℕ)
      → i + 1 < total
      → fill (suc n) buffer array i (p i)
        ≡ fill n buffer (read buffer array i (p i)) (i + 1) (p (i + 1))
  fill-next n array i lt =
      let there = d.digit (i + 1) lt in
      let up = d.rising i lt in
      fill-digit n buffer array i (p i) (p (i + 1)) (d.digit i (omega arith))
        (d.inside i (omega arith))
        (skip-digit 256 (p i + 1) (p (i + 1)) buffer (omega arith)
          (omega (arith, d.inside (i + 1) lt)) (d.inside (i + 1) lt) there
          (λ k a b. d.between i k lt (omega arith) b))
      ∙ rw (ne→== (buffer (p (i + 1))) 0 (is_digit-ne (buffer (p (i + 1))) there)) refl

  fill-step :
      (n : ℕ) (array : ℕ → ℤ) (i : ℕ)
      → i + suc n ≡ total
      → fill (suc n) buffer array i (p i)
        ≡ fill n buffer (read buffer array i (p i)) (i + 1) (p (i + 1))
  fill-step zero array i e = fill-last array i (omega arith) ∙ (unfold fill in refl)
  fill-step (suc n) array i e = fill-next (suc n) array i (omega arith)

  fill-kept :
      (n : ℕ) (array : ℕ → ℤ) (i : ℕ)
      → i + n ≡ total
      → (k : ℕ) → (k < i) ⊎ (total ≤ k)
      → fill n buffer array i (p i) k ≡ array k
  unfolding fill
  fill-kept zero array i e k h = refl
  fill-kept (suc n) array i e k h =
      ap (λ a. a k) (fill-step n array i e)
      ∙ fill-kept n (read buffer array i (p i)) (i + 1) (omega arith) k (omega arith)
      ∙ read-ne buffer array i (p i) k (omega arith)

  fill-value :
      (n : ℕ) (array : ℕ → ℤ) (i : ℕ)
      → i + n ≡ total
      → (k : ℕ) → i ≤ k
      → k < total
      → fill n buffer array i (p i) k ≡ value buffer (p k)
  fill-value zero array i e k h lt = absurd (omega arith)
  fill-value (suc n) array i e k h lt =
      ap (λ a. a k) (fill-step n array i e) ∙ elim (ℕ_discrete k i) [
        | yes same ↦
            fill-kept n (read buffer array i (p i)) (i + 1) (omega arith) k (inl (omega arith))
            ∙ ap (read buffer array i (p i)) same
            ∙ read_self buffer array i (p i)
            ∙ ap (λ j. value buffer (p j)) (sym same)
        | no other ↦
            fill-value n (read buffer array i (p i)) (i + 1) (omega arith) k (omega arith) lt
      ]

  -- When a line begins with a digit and has `total` digits at least in its 256 bytes, the loop with
  -- which the tasks read an array fills the first `total` elements, one for each digit: an element is
  -- the number that `str_to_int` reads from its digit on, so that a number of two digits takes two
  -- elements. No other element is written.
  pub fill-digits :
      (array : ℕ → ℤ) (k : ℕ)
      → p 0 ≡ 0
      → ((k < total)
          × (fill total buffer array 0 0 k ≡ signed (number_at buffer (p k) (255 - p k))))
        ⊎ ((total ≤ k) × (fill total buffer array 0 0 k ≡ array k))
  fill-digits array k first =
      let at : fill total buffer array 0 0 ≡ fill total buffer array 0 (p 0) =
        ap (fill total buffer array 0) (sym first) in
      elim (dec_lt k total) [
        | yes lt ↦
            inl (lt, ap (λ a. a k) at ∙ fill-value total array 0 (omega arith) k (omega arith) lt)
        | no ge ↦ inr (
          omega arith,
          ap (λ a. a k) at ∙ fill-kept total array 0 (omega arith) k (inr (omega arith)),
        )
      ]
