-- ===== src/Screen/Decimal.antt =====
-- The text that the loops of `printf_int` print of a number that is not negative.
use a_simple_microkernel.Prelude.{
  ℕ, zero, suc, ◌+◌, ◌/◌, ◌%◌, ◌^◌, ◌<◌, ◌≡◌, refl, ap, sym, ◌∙◌, ◌≢◌, List, [], ◌∷◌, ◌++◌, arith,
  ◌==◌, if◌then◌else◌, Bool-cases, inl, inr, lt→ltb, le→ltb, lt→leb, ne→==, All, dec_lt,
}
use a_simple_microkernel.Screen.{
  Screen, printf, printf_char, printf_int, print_char, print_back, digits,
}

-- The buffer from its end.
unfoldable pub turned : List ℕ → List ℕ
turned [] = []
turned (c ∷ buffer) = turned buffer ++ c ∷ []

-- The text of a number below 2 ^ 31.
unfoldable pub decimal : ℕ → List ℕ
decimal num = if num == 0 then b'0' ∷ [] else turned (digits 32 num)

abbrev pub Printable : List ℕ → Type 0
Printable xs = All (λ c. c ≢ 0) xs

pub printf-append :
    (s : Screen) (xs ys : List ℕ) → Printable xs → printf s (xs ++ ys) ≡ printf (printf s xs) ys
unfolding printf
printf-append s [] ys h = refl
printf-append s (c ∷ xs) ys (h, hs) = rw (ne→== c 0 h) (printf-append (print_char s c) xs ys hs)

printf_char_lem : (s : Screen) (c : ℕ) → c ≢ 0 → printf_char s c ≡ printf s (c ∷ [])
unfolding printf_char printf
printf_char_lem s c h = rw (ne→== c 0 h)

pub Printable-append : (xs ys : List ℕ) → Printable xs → Printable ys → Printable (xs ++ ys)
Printable-append [] ys h k = k
Printable-append (x ∷ xs) ys (h, hs) k = (h, Printable-append xs ys hs k)

Printable-turned : (xs : List ℕ) → Printable xs → Printable (turned xs)
unfolding turned
Printable-turned [] h = tt
Printable-turned (x ∷ xs) (h, hs) =
    Printable-append (turned xs) (x ∷ []) (Printable-turned xs hs) (h, tt)

pub print_back-turned :
    (s : Screen) (xs : List ℕ) → Printable xs → print_back s xs ≡ printf s (turned xs)
unfolding print_back turned printf
print_back-turned s [] h = refl
print_back-turned s (c ∷ xs) (h, hs) =
    printf_char_lem (print_back s xs) c h
    ∙ ap (λ t. printf t (c ∷ [])) (print_back-turned s xs hs)
    ∙ sym (printf-append s (turned xs) (c ∷ []) (Printable-turned xs hs))

pub digits-suc :
    (k n : ℕ) → 0 < n → n < 2 ^ 31 → digits (suc k) n ≡ (n % 10 + 48) ∷ digits k (n / 10)
unfolding digits
digits-suc k n h lt = rw (lt→ltb 0 n h, lt→ltb n (2 ^ 31) lt)

pub digits-zero : (k : ℕ) → digits k 0 ≡ []
unfolding digits
digits-zero zero = refl
digits-zero (suc k) = refl

pub Printable-digits : (k n : ℕ) → n < 2 ^ 31 → Printable (digits k n)
unfolding digits
Printable-digits zero n lt = tt
Printable-digits (suc k) n lt = elim (dec_lt 0 n) [
  | yes h ↦
      rw (lt→ltb 0 n h, lt→ltb n (2 ^ 31) lt)
        (omega arith, Printable-digits k (n / 10) (omega arith))
  | no h ↦ rw (le→ltb 0 n (omega arith)) tt
]

pub decimal-Printable : (num : ℕ) → num < 2 ^ 31 → Printable (decimal num)
unfolding decimal
decimal-Printable num lt = elim (Bool-cases (num == 0)) [
  | inl z ↦ rw z ((λ e. cc), tt)
  | inr z ↦ rw z (Printable-turned (digits 32 num) (Printable-digits 32 num lt))
]

pub printf_int-natural :
    (s : Screen) (num : ℕ) → num < 2 ^ 31 → printf_int s num ≡ printf s (decimal num)
unfolding printf_int decimal
printf_int-natural s num lt = rw (lt→leb (2 ^ 31) num lt) (elim (Bool-cases (num == 0)) [
  | inl z ↦ rw z (printf_char_lem s 48 (λ e. cc))
  | inr z ↦ rw z (print_back-turned s (digits 32 num) (Printable-digits 32 num lt))
])
