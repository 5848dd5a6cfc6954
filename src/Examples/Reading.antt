-- ===== src/Examples/Reading.antt =====
-- An array read from a concrete line.
use a_simple_microkernel.Prelude.{
  ℕ, zero, suc, ◌+◌, ◌-◌, ◌≤◌, ◌<◌, ◌≡◌, ◌⊎◌, refl, pos, true, false, get_or, codes, arith,
}
use a_simple_microkernel.Tasks.{is_digit, signed, number_at, fill}
use a_simple_microkernel.Tasks.Reading.{Digits, fill-digits}

-- The line "12 3", with null bytes behind it.
abbrev line : ℕ → ℕ
line j = get_or (codes "12 3") j 0

abbrev places : ℕ → ℕ
places zero = 0
places (suc zero) = 1
places (suc (suc i)) = 3

line-digit : (i : ℕ) → i < 3 → is_digit (line (places i)) ≡ true
line-digit zero lt = refl
line-digit (suc zero) lt = refl
line-digit (suc (suc i)) lt = refl

places-inside : (i : ℕ) → i < 3 → places i < 256
places-inside zero lt = omega arith
places-inside (suc zero) lt = omega arith
places-inside (suc (suc i)) lt = omega arith

places-rising : (i : ℕ) → i + 1 < 3 → places i < places (i + 1)
places-rising zero lt = omega arith
places-rising (suc zero) lt = omega arith
places-rising (suc (suc i)) lt = absurd (omega arith)

line-between : (i k : ℕ) → i + 1 < 3 → places i < k → k < places (i + 1) → is_digit (line k) ≡ false
line-between zero k lt g h = absurd (omega arith)
line-between (suc zero) k lt g h = let e : k ≡ 2 = omega arith in rw e refl
line-between (suc (suc i)) k lt g h = absurd (omega arith)

line-Digits : Digits line 3 places
line-Digits = record {
  digit = line-digit;
  inside = places-inside;
  rising = places-rising;
  between = line-between;
}

-- The second element is the 2 of 12.
fill-digits_example :
    ((1 < 3)
      × (fill 3 line (λ i. pos 0) 0 0 1 ≡ signed (number_at line (places 1) (255 - places 1))))
    ⊎ ((3 ≤ 1) × (fill 3 line (λ i. pos 0) 0 0 1 ≡ pos 0))
fill-digits_example = fill-digits line 3 places line-Digits (λ i. pos 0) 1 refl
