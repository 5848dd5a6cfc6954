-- ===== src/Screen/Bounds.antt =====
-- Printing stays on the screen.
use a_simple_microkernel.Prelude.{
  ℕ, zero, suc, ◌+◌, ◌*◌, ◌≤◌, ◌<◌, ◌≡◌, refl, ◌∙◌, List, [], ◌∷◌, arith, leb, ◌==◌, Bool-cases,
  codes, ◌^◌, inl, inr,
}
use a_simple_microkernel.Screen.{
  Screen, put, clear_row, clear_rows, place, wrap_column, wrap_row, print_char, printf, printf_char,
  printf_int, print_back, digits, printf_hex,
}

-- The cursor stands on the screen, left of the end of the half that is in use.
pub record IsValid (s : Screen) : Type 0 where
  pub row : s.row < 25
  pub half : s.half ≤ 1
  pub column : s.column < 40 + s.half * 40

-- The video memory behind the screen's 2000 cells.
abbrev pub Beyond : (ℕ → ℕ) → (ℕ → ℕ) → Type 0
Beyond v w = (i : ℕ) → 2000 ≤ i → w i ≡ v i

put-Beyond : (v : ℕ → ℕ) (i c j : ℕ) → i < 2000 → 2000 ≤ j → put v i c j ≡ v j
unfolding put
put-Beyond v i c j h k = ground arith

clear_row-Beyond :
    (n : ℕ) (v : ℕ → ℕ) (r c j : ℕ) → r < 25 → c + n ≤ 80 → 2000 ≤ j → clear_row n v r c j ≡ v j
unfolding clear_row
clear_row-Beyond zero v r c j h k l = refl
clear_row-Beyond (suc n) v r c j h k l =
    clear_row-Beyond n (put v (80 * r + c) 32) r (c + 1) j h (omega arith) l
    ∙ put-Beyond v (80 * r + c) 32 j (omega arith) l

clear_rows-Beyond :
    (n : ℕ) (v : ℕ → ℕ) (r c j : ℕ) → r + n ≤ 25 → c ≤ 40 → 2000 ≤ j → clear_rows n v r c j ≡ v j
unfolding clear_rows
clear_rows-Beyond zero v r c j h k l = refl
clear_rows-Beyond (suc n) v r c j h k l =
    clear_rows-Beyond n (clear_row 40 v r c) (r + 1) c j (omega arith) k l
    ∙ clear_row-Beyond 40 v r c j (omega arith) (omega arith) l

-- Between the steps of a round the column or the row may stand one past its end.
record IsNear (s : Screen) : Type 0 where
  row : s.row ≤ 25
  half : s.half ≤ 1
  column : s.column ≤ 40 + s.half * 40

place-IsNear : (s : Screen) (c : ℕ) → IsValid s → IsNear (place s c)
unfolding place
place-IsNear s c v = ground arith

wrap-IsValid : (s : Screen) → IsNear s → IsValid (wrap_row (wrap_column s))
unfolding wrap_row wrap_column
wrap-IsValid s v = ground arith

place-Beyond : (s : Screen) (c j : ℕ) → IsValid s → 2000 ≤ j → (place s c).video j ≡ s.video j
unfolding place
place-Beyond s c j v h = ground arith

wrap-Beyond : (s : Screen) (j : ℕ) → 2000 ≤ j → (wrap_row (wrap_column s)).video j ≡ s.video j
unfolding wrap_row wrap_column
wrap-Beyond s j h = ground (
  arith,
  clear_rows-Beyond 25 s.video 0 0 j (omega arith) (omega arith) h,
  clear_rows-Beyond 25 s.video 0 40 j (omega arith) (omega arith) h,
)

-- The cursor is valid and the memory beyond the screen is as it was.
pub record Printed (s t : Screen) : Type 0 where
  pub valid : IsValid t
  pub beyond : Beyond s.video t.video

pub Printed-refl : (s : Screen) → IsValid s → Printed s s
Printed-refl s v = record { valid = v; beyond = λ i h. refl }

pub Printed-trans : {s t u : Screen} → Printed s t → Printed t u → Printed s u
Printed-trans p q = record { valid = q.valid; beyond = λ i h. q.beyond i h ∙ p.beyond i h }

print_char-Printed : (s : Screen) (c : ℕ) → IsValid s → Printed s (print_char s c)
unfolding print_char
print_char-Printed s c v = record {
  valid = wrap-IsValid (place s c) (place-IsNear s c v);
  beyond = λ i h. wrap-Beyond (place s c) i h ∙ place-Beyond s c i v h;
}

-- From a cursor on the screen, `printf` of any text leaves the cursor on the screen and writes no
-- memory beyond the screen's 2000 cells.
pub printf-Printed : (s : Screen) (str : List ℕ) → IsValid s → Printed s (printf s str)
unfolding printf
printf-Printed s [] v = Printed-refl s v
printf-Printed s (c ∷ str) v = elim (Bool-cases (c == 0)) [
  | inl e ↦ rw e (Printed-refl s v)
  | inr e ↦ rw e (
      Printed-trans (print_char-Printed s c v)
        (printf-Printed (print_char s c) str (print_char-Printed s c v).valid))
]

pub printf_char-Printed : (s : Screen) (c : ℕ) → IsValid s → Printed s (printf_char s c)
unfolding printf_char
printf_char-Printed s c v = printf-Printed s (c ∷ 0 ∷ []) v

print_back-Printed : (s : Screen) (str : List ℕ) → IsValid s → Printed s (print_back s str)
unfolding print_back
print_back-Printed s [] v = Printed-refl s v
print_back-Printed s (c ∷ str) v =
    let before = print_back-Printed s str v in
    Printed-trans before (printf_char-Printed (print_back s str) c before.valid)

pub printf_int-Printed : (s : Screen) (num : ℕ) → IsValid s → Printed s (printf_int s num)
unfolding printf_int
printf_int-Printed s num v = elim (Bool-cases (leb (2 ^ 31) num)) [
  | inl e ↦ rw e (
      let minus = printf-Printed s (codes "-") v in
      Printed-trans minus (print_back-Printed (printf s (codes "-")) _ minus.valid))
  | inr e ↦ rw e (elim (Bool-cases (num == 0)) [
    | inl z ↦ rw z (printf_char-Printed s 48 v)
    | inr z ↦ rw z (print_back-Printed s (digits 32 num) v)
  ])
]

pub printf_hex-Printed : (s : Screen) (key : ℕ) → IsValid s → Printed s (printf_hex s key)
unfolding printf_hex
printf_hex-Printed s key v = printf-Printed s _ v
