-- ===== src/Tasks/Decimal.antt =====
-- `str_to_int` reads back what `printf_int` prints.
use native.Mathlib.Nat.{pow-suc}
use a_simple_microkernel.Prelude.{
  ℕ, zero, suc, ◌+◌, ◌-◌, ◌*◌, ◌/◌, ◌%◌, ◌^◌, ◌≤◌, ◌<◌, ◌≡◌, refl, ap, ◌∙◌, List, [], ◌∷◌, ◌++◌,
  arith, length, ne→==, le→leb, length-append,
}
use mathlib.Core.List.{append_assoc}
use a_simple_microkernel.Screen.{digits}
use a_simple_microkernel.Screen.Decimal.{turned, decimal, digits-suc, digits-zero}
use a_simple_microkernel.Tasks.{str_to_int_from, str_to_int}

read-digit :
    (r d : ℕ) (str : List ℕ) (len : ℕ)
    → d < 10
    → r * 10 + d < 2 ^ 32
    → str_to_int_from r ((d + 48) ∷ str) (suc len) ≡ str_to_int_from (r * 10 + d) str len
unfolding str_to_int_from
read-digit r d str len h lt =
    rw (le→leb (d + 48) 57 (omega arith), le→leb 48 (d + 48) (omega arith))
      (ap (λ t. str_to_int_from t str len) (omega arith))

-- After the digits of `n`, with `k` of them at most, the loop has read `n` and goes on.
read-digits :
    (k n : ℕ) (str : List ℕ) (len : ℕ)
    → n < 10 ^ k
    → n < 2 ^ 31
    → str_to_int_from 0 (turned (digits k n) ++ str) (length (digits k n) + len)
      ≡ str_to_int_from n str len
unfolding turned
read-digits k zero str len h lt = rw digits-zero (ap (str_to_int_from 0 str) (omega arith))
read-digits zero (suc n) str len h lt = absurd (omega arith)
read-digits (suc k) (suc n) str len h lt =
    let d = suc n % 10 in
    let ds = digits k (suc n / 10) in
    let small : suc n / 10 < 10 ^ k =
      let big : suc n < 10 ^ k * 10 = rw (← pow-suc) h in omega arith in
    rw (digits-suc k (suc n) (omega arith) lt, append_assoc)
      (ap (str_to_int_from 0 (turned ds ++ (d + 48) ∷ str)) (omega arith)
        ∙ read-digits k (suc n / 10) ((d + 48) ∷ str) (suc len) small (omega arith)
        ∙ read-digit (suc n / 10) d str len (omega arith) (omega arith)
        ∙ ap (λ t. str_to_int_from t str len) (omega arith))

stop : (n : ℕ) (str : List ℕ) (len : ℕ) → str_to_int_from n (0 ∷ str) len ≡ n
unfolding str_to_int_from
stop n str zero = refl
stop n str (suc len) = refl

length-turned : (xs : List ℕ) → length (turned xs) ≡ length xs
unfolding turned
length-turned [] = refl
length-turned (x ∷ xs) = omega (arith, length-append {0} (turned xs) (x ∷ []), length-turned xs)

decimal-suc : (n : ℕ) → decimal (suc n) ≡ turned (digits 32 (suc n))
unfolding decimal
decimal-suc n = rw (ne→== (suc n) 0 (omega arith))

read-decimal :
    (n : ℕ) (str : List ℕ) (len : ℕ)
    → n < 2 ^ 31
    → str_to_int_from 0 (decimal n ++ 0 ∷ str) (length (decimal n) + len) ≡ n
unfolding decimal
read-decimal zero str len lt =
    ap (str_to_int_from 0 (48 ∷ 0 ∷ str)) (omega arith)
    ∙ read-digit 0 0 (0 ∷ str) len (omega arith) (omega arith)
    ∙ stop 0 str len
read-decimal (suc n) str len lt =
    rw (decimal-suc n, length-turned)
      (read-digits 32 (suc n) (0 ∷ str) len (omega arith) lt ∙ stop (suc n) str len)

-- A number below 2 ^ 31 that `printf_int` has printed is read back by `str_to_int` from a
-- null-terminated text, whatever stands behind the null, if the length allows for all its digits.
pub str_to_int-decimal :
    (n : ℕ) (str : List ℕ) (len : ℕ)
    → n < 2 ^ 31
    → length (decimal n) ≤ len
    → str_to_int (decimal n ++ 0 ∷ str) len ≡ n
unfolding str_to_int
str_to_int-decimal n str len lt fit =
    ap (str_to_int_from 0 (decimal n ++ 0 ∷ str)) (omega arith)
    ∙ read-decimal n str (len - length (decimal n)) lt
