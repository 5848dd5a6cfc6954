-- ===== src/Screen.antt =====
-- The output half of src/iolib.cpp: text on the 80 by 25 video memory, which is used as two halves
-- of 40 columns, the left one first. A cell is 16 bits, the colours above the character. A `char` is
-- its byte, and what the code computes with it as a signed number is written out.
pub mod Bounds
pub mod Decimal
pub mod Hex
pub mod Signed
use a_simple_microkernel.Prelude.{
  ℕ, zero, suc, ◌+◌, ◌-◌, ◌*◌, ◌/◌, ◌%◌, ◌^◌, Bool, ◌&&◌, List, [], ◌∷◌, ltb, leb, ◌==◌,
  if◌then◌else◌, codes, get_or,
}

pub record Screen : Type 0 where
  pub video : ℕ → ℕ
  pub row : ℕ
  pub column : ℕ
  pub half : ℕ

-- `(cell & 0xFF00) | c`. A byte from 128 on is negative as a `char`, and fills the upper bits.
unfoldable pub blend : ℕ → ℕ → ℕ
blend cell c = if ltb c 128 then cell / 256 % 256 * 256 + c else 65280 + c

unfoldable pub set_cell : (ℕ → ℕ) → ℕ → ℕ → ℕ → ℕ
set_cell video i v j = if j == i then v else video j

unfoldable pub put : (ℕ → ℕ) → ℕ → ℕ → ℕ → ℕ
unfolding set_cell blend
put video i c = set_cell video i (blend (video i) c)

-- The loops that blank one half: `n` cells from `column` on, then `n` rows from `row` on.
unfoldable pub clear_row : ℕ → (ℕ → ℕ) → (row column : ℕ) → ℕ → ℕ
unfolding put
clear_row zero video row column = video
clear_row (suc n) video row column =
    clear_row n (put video (80 * row + column) b' ') row (column + 1)

unfoldable pub clear_rows : ℕ → (ℕ → ℕ) → (row column : ℕ) → ℕ → ℕ
unfolding clear_row
clear_rows zero video row column = video
clear_rows (suc n) video row column = clear_rows n (clear_row 40 video row column) (row + 1) column

-- The switch of `printf` on one character.
unfoldable pub place : Screen → ℕ → Screen
unfolding put
place s c =
    if c == 10
    then record s { column = s.half * 40 % 256; row = (s.row + 1) % 256 }
    else if c == 8
    then (let column = if ltb 0 s.column then s.column - 1 else s.column in
        record s { column = column; video = put s.video (80 * s.row + column) b' ' })
    else record s { video = put s.video (80 * s.row + s.column) c; column = (s.column + 1) % 256 }

unfoldable pub wrap_column : Screen → Screen
wrap_column s =
    if leb (40 + s.half * 40) s.column
    then record s { row = (s.row + 1) % 256; column = s.half * 40 % 256 }
    else s

unfoldable pub wrap_row : Screen → Screen
wrap_row s =
    let half = if s.half == 0 then 1 else 0 in
    if leb 25 s.row
    then record {
      video = clear_rows 25 s.video 0 (half * 40);
      row = 0;
      column = half * 40;
      half = half;
    }
    else s

-- The body of the loop of `printf`.
unfoldable pub print_char : Screen → ℕ → Screen
unfolding place wrap_column wrap_row
print_char s c = wrap_row (wrap_column (place s c))

-- `printf(char*)` stops at the null byte.
unfoldable pub printf : Screen → List ℕ → Screen
unfolding print_char
printf s [] = s
printf s (c ∷ str) = if c == 0 then s else printf (print_char s c) str

-- `printf(char)`
unfoldable pub printf_char : Screen → ℕ → Screen
printf_char s c = printf s (c ∷ 0 ∷ [])

-- The loops of `clearf`: 25 cells of each of 80 columns. `half` stays.
unfoldable pub clear_column : ℕ → (ℕ → ℕ) → (i j : ℕ) → ℕ → ℕ
unfolding set_cell
clear_column zero video i j = video
clear_column (suc n) video i j = clear_column n (set_cell video (80 * j + i) b' ') i (j + 1)

unfoldable pub clear_columns : ℕ → (ℕ → ℕ) → (i : ℕ) → ℕ → ℕ
unfolding clear_column
clear_columns zero video i = video
clear_columns (suc n) video i = clear_columns n (clear_column 25 video i 0) (i + 1)

unfoldable pub clearf : Screen → Screen
clearf s = record s { video = clear_columns 80 s.video 0; row = 0; column = 0 }

-- The loop of `printf_int` that fills the buffer, the lowest digit first: `n` rounds are left, and
-- the 32-bit `temp` goes on while it is positive.
unfoldable pub digits : ℕ → ℕ → List ℕ
digits zero temp = []
digits (suc n) temp =
    let rest = digits n (temp / 10) in
    if ltb 0 temp && ltb temp (2 ^ 31) then (temp % 10 + 48) ∷ rest else []

-- The loop of `printf_int` that prints the buffer from its end.
unfoldable pub print_back : Screen → List ℕ → Screen
print_back s [] = s
print_back s (c ∷ buffer) = printf_char (print_back s buffer) c

-- An `int32_t` is its 32-bit pattern.
unfoldable pub printf_int : Screen → ℕ → Screen
printf_int s num =
    if leb (2 ^ 31) num
    then print_back (printf s (codes "-")) (digits 32 ((2 ^ 32 - num) % 2 ^ 32))
    else if num == 0
    then printf_char s 48
    else print_back s (digits 32 num)

unfoldable pub hex : ℕ → ℕ
hex d = get_or (codes "0123456789ABCDEF") d 0

-- `foo` holds "00" and its terminating null.
unfoldable pub printf_hex : Screen → ℕ → Screen
printf_hex s key = printf s (hex (key / 16 % 16) ∷ hex (key % 16) ∷ [])

unfoldable pub printf_hex16 : Screen → ℕ → Screen
printf_hex16 s key = printf_hex (printf_hex s (key / 256 % 256)) (key % 256)

unfoldable pub printf_hex32 : Screen → ℕ → Screen
printf_hex32 s key = printf_hex16 (printf_hex16 s (key / 65536 % 65536)) (key % 65536)

unfoldable pub printf_hex64 : Screen → ℕ → Screen
printf_hex64 s key = printf_hex32 (printf_hex32 s (key / 2 ^ 32 % 2 ^ 32)) (key % 2 ^ 32)
