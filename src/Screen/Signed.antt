-- ===== src/Screen/Signed.antt =====
-- What `printf_int` of src/iolib.cpp prints, against the decimal digits of the number.
use native.Mathlib.Nat.{pow-suc}
use a_simple_microkernel.Prelude.{
  ℕ, zero, suc, ◌+◌, ◌-◌, ◌*◌, ◌/◌, ◌%◌, ◌^◌, ◌≤◌, ◌<◌, ◌≡◌, refl, ap, sym, ◌∙◌, ◌≢◌, List, [], ◌∷◌,
  ◌++◌, arith, ◌⊎◌, inl, inr, le→leb, All, codes, dec_lt, ℕ_discrete, ne→==,
}
use a_simple_microkernel.Screen.{Screen, printf, printf_int, print_back, digits}
use a_simple_microkernel.Screen.Decimal.{
  decimal, turned, digits-suc, digits-zero, printf-append, print_back-turned, Printable-digits,
  printf_int-natural,
}

-- The number that a text of decimal digits stands for, the highest digit first.
unfoldable pub decimal_number : ℕ → List ℕ → ℕ
decimal_number n [] = n
decimal_number n (c ∷ str) = decimal_number (n * 10 + (c - b'0')) str

abbrev pub IsDigit : ℕ → Type 0
IsDigit c = (b'0' ≤ c) × (c ≤ b'9')

-- The text begins, and with no zero.
abbrev pub Leads : List ℕ → Type 0
Leads [] = ⊥
Leads (c ∷ str) = c ≢ b'0'

-- The text is the decimal notation of the number: digits from 0 to 9 that stand for it, the first one
-- not 0, unless the text is 0 alone.
pub record IsDecimal (text : List ℕ) (num : ℕ) : Type 0 where
  pub digits : All IsDigit text
  pub value : decimal_number 0 text ≡ num
  pub leads : (text ≡ b'0' ∷ []) ⊎ Leads text

decimal_number-append :
    (n : ℕ) (xs ys : List ℕ) → decimal_number n (xs ++ ys) ≡ decimal_number (decimal_number n xs) ys
unfolding decimal_number
decimal_number-append n [] ys = refl
decimal_number-append n (x ∷ xs) ys = decimal_number-append (n * 10 + (x - 48)) xs ys

All-append : (xs ys : List ℕ) → All IsDigit xs → All IsDigit ys → All IsDigit (xs ++ ys)
All-append [] ys h k = k
All-append (x ∷ xs) ys (h, hs) k = (h, All-append xs ys hs k)

Leads-append : (xs ys : List ℕ) → Leads xs → Leads (xs ++ ys)
Leads-append [] ys h = absurd h
Leads-append (x ∷ xs) ys h = h

last_digit : (n d : ℕ) → decimal_number n ((d + 48) ∷ []) ≡ n * 10 + d
unfolding decimal_number
last_digit n d = omega arith

digits-IsDigit : (k n : ℕ) → n < 2 ^ 31 → All IsDigit (turned (digits k n))
unfolding turned digits
digits-IsDigit zero n lt = tt
digits-IsDigit (suc k) zero lt = tt
digits-IsDigit (suc k) (suc n) lt = rw (digits-suc k (suc n) (omega arith) lt) (
    All-append (turned (digits k (suc n / 10))) ((suc n % 10 + 48) ∷ [])
      (digits-IsDigit k (suc n / 10) (omega arith)) (omega arith))

digits-value : (k n : ℕ) → n < 10 ^ k → n < 2 ^ 31 → decimal_number 0 (turned (digits k n)) ≡ n
unfolding turned decimal_number
digits-value k zero h lt = rw digits-zero refl
digits-value zero (suc n) h lt = absurd (omega arith)
digits-value (suc k) (suc n) h lt =
    let big : suc n < 10 ^ k * 10 = rw (← pow-suc) h in
    let ih = digits-value k (suc n / 10) (omega arith) (omega arith) in
    rw (digits-suc k (suc n) (omega arith) lt) (
      decimal_number-append 0 (turned (digits k (suc n / 10))) ((suc n % 10 + 48) ∷ [])
      ∙ ap (λ v. decimal_number v ((suc n % 10 + 48) ∷ [])) ih
      ∙ last_digit (suc n / 10) (suc n % 10)
      ∙ omega arith)

digits-Leads : (k n : ℕ) → 0 < n → n < 10 ^ k → n < 2 ^ 31 → Leads (turned (digits k n))
unfolding turned
digits-Leads zero n pos h lt = absurd (omega arith)
digits-Leads (suc k) n pos h lt =
    let big : n < 10 ^ k * 10 = rw (← pow-suc) h in
    rw (digits-suc k n pos lt) (elim (ℕ_discrete (n / 10) 0) [
      | yes z ↦ rw (z, digits-zero) (λ e. absurd (omega arith))
      | no z ↦
          Leads-append (turned (digits k (n / 10))) ((n % 10 + 48) ∷ [])
            (digits-Leads k (n / 10) (omega arith) (omega arith) (omega arith))
    ])

turned-IsDecimal : (n : ℕ) → 0 < n → n < 2 ^ 31 → IsDecimal (turned (digits 32 n)) n
turned-IsDecimal n pos lt = record {
  digits = digits-IsDigit 32 n lt;
  value = digits-value 32 n (omega arith) lt;
  leads = inr (digits-Leads 32 n pos (omega arith) lt);
}

pub decimal-IsDecimal : (n : ℕ) → n < 2 ^ 31 → IsDecimal (decimal n) n
unfolding decimal decimal_number
decimal-IsDecimal zero lt = record { digits = omega arith; value = refl; leads = inl refl }
decimal-IsDecimal (suc n) lt =
    rw (ne→== (suc n) 0 (omega arith)) (turned-IsDecimal (suc n) (omega arith) lt)

-- What is printed of the 32-bit pattern `num` of a signed number.
abbrev pub Signed : Screen → ℕ → Screen → Type 0
Signed s num s' =
    ((num < 2 ^ 31) × ((text : List ℕ) × (s' ≡ printf s text) × IsDecimal text num))
    ⊎ ((2 ^ 31 < num)
        × ((text : List ℕ) × (s' ≡ printf s (codes "-" ++ text)) × IsDecimal text (2 ^ 32 - num)))
    ⊎ ((num ≡ 2 ^ 31) × (s' ≡ printf s (codes "-")))

negative :
    (s : Screen) (num : ℕ)
    → 2 ^ 31 ≤ num
    → num < 2 ^ 32
    → printf_int s num ≡ print_back (printf s (codes "-")) (digits 32 (2 ^ 32 - num))
unfolding printf_int
negative s num le lt =
    rw (le→leb (2 ^ 31) num le)
      (ap (λ n. print_back (printf s (codes "-")) (digits 32 n)) (omega arith))

-- The loop is left at once by 2 ^ 31, the pattern of a negative number.
lowest : (s : Screen) → print_back s (digits 32 (2 ^ 31)) ≡ s
unfolding print_back digits
lowest s = refl

-- The text behind the minus sign is that of the number without its sign.
pub printf_int-negative :
    (s : Screen) (num : ℕ)
    → 2 ^ 31 < num
    → num < 2 ^ 32
    → printf_int s num ≡ printf s (codes "-" ++ decimal (2 ^ 32 - num))
unfolding decimal
printf_int-negative s num le lt =
    let n : ℕ = 2 ^ 32 - num in
    let ds = digits 32 n in
    rw (ne→== (2 ^ 32 - num) 0 (omega arith)) (
      negative s num (omega arith) lt
      ∙ print_back-turned (printf s (codes "-")) ds (Printable-digits 32 n (omega arith))
      ∙ sym (printf-append s (codes "-") (turned ds) (omega arith)))

-- `printf_int` of a 32-bit pattern prints, as `printf` would, the number that it stands for: if it
-- is not negative, its decimal notation, which begins with no zero but in 0 itself; if it is
-- negative, a minus sign and then the decimal notation of the number without its sign. The least
-- number, -2 ^ 31, is the exception: the minus sign is all that is printed of it, as its negation
-- wraps around.
pub printf_int-decimal : (s : Screen) (num : ℕ) → num < 2 ^ 32 → Signed s num (printf_int s num)
printf_int-decimal s num lt = elim (dec_lt num (2 ^ 31)) [
  | yes h ↦ inl (h, (decimal num, printf_int-natural s num h, decimal-IsDecimal num h))
  | no h ↦ elim (ℕ_discrete num (2 ^ 31)) [
    | yes e ↦
        inr (inr (e, rw e (negative s (2 ^ 31) (omega arith) (omega arith) ∙ lowest (printf s _))))
    | no ne ↦
        let n : ℕ = 2 ^ 32 - num in
        let notation = decimal-IsDecimal n (omega arith) in
        inr (inl (omega arith, (decimal n, printf_int-negative s num (omega arith) lt, notation)))
  ]
]
