-- ===== src/Screen/Hex.antt =====
-- The hexadecimal digits that `printfHex32` prints are those of the word.
use a_simple_microkernel.Prelude.{
  ℕ, suc, ◌+◌, ◌-◌, ◌*◌, ◌/◌, ◌%◌, ◌^◌, ◌≤◌, ◌<◌, ◌≡◌, refl, ap, ◌∙◌, List, [], ◌∷◌, ◌++◌, arith,
  ltb, leb, ◌==◌, ◌&&◌, ◌||◌, Bool, if◌then◌else◌, indexed, get_or-indexed, codes, true, ne→==, ◌≢◌,
  sym, ◌⊎◌, inl, inr, All, length,
}
use a_simple_microkernel.Screen.{Screen, hex, printf, printf_hex, printf_hex16, printf_hex32}

-- A character from 0 to 9 or from A to F.
abbrev pub IsHexDigit : ℕ → Type 0
IsHexDigit c = (b'0' ≤ c × c ≤ b'9') ⊎ (b'A' ≤ c × c ≤ b'F')

-- The value of a hexadecimal digit, by its place in the ASCII table.
unfoldable pub hex_value : ℕ → ℕ
hex_value c = if ltb c b'A' then c - b'0' else c - b'A' + 10

-- The number that a text of hexadecimal digits stands for, the highest digit first.
unfoldable pub hex_number : ℕ → List ℕ → ℕ
hex_number n [] = n
hex_number n (c ∷ str) = hex_number (n * 16 + hex_value c) str

unfoldable pub hex_text : ℕ → List ℕ
hex_text key = hex (key / 16 % 16) ∷ hex (key % 16) ∷ []

abbrev is_hex : ℕ → ℕ → Bool
is_hex d c = (hex_value c == d) && ((leb b'0' c && leb c b'9') || (leb b'A' c && leb c b'F'))

hex_table : indexed is_hex 0 (codes "0123456789ABCDEF") ≡ true
unfolding indexed hex_value
hex_table = refl

hex_digit : (d : ℕ) → d < 16 → (hex_value (hex d) ≡ d) × IsHexDigit (hex d)
unfolding hex
hex_digit d h = ground (arith, get_or-indexed is_hex 0 (codes "0123456789ABCDEF") d 0 hex_table h)

hex-ne-zero : (d : ℕ) → d < 16 → hex d ≢ 0
hex-ne-zero d h = elim ((hex_digit d h).1) [
  | inl (low, high) ↦ (λ e. absurd (omega arith))
  | inr (low, high) ↦ (λ e. absurd (omega arith))
]

-- The text that the four calls of `printfHex` below `printfHex32` print.
unfoldable pub hex_text32 : ℕ → List ℕ
unfolding hex_text
hex_text32 key =
    hex_text (key / 65536 % 65536 / 256 % 256)
    ++ (hex_text (key / 65536 % 65536 % 256)
        ++ (hex_text (key % 65536 / 256 % 256) ++ (hex_text (key % 65536 % 256) ++ [])))

printf-nil : (s : Screen) → printf s [] ≡ s
unfolding printf
printf-nil s = refl

-- Two digits in a row are printed as one text.
printf-hex_text :
    (s : Screen) (key : ℕ) (str : List ℕ)
    → printf s (hex_text key ++ str) ≡ printf (printf_hex s key) str
unfolding printf hex_text printf_hex
printf-hex_text s key str = rw (
  ne→== (hex (key / 16 % 16)) 0 (hex-ne-zero (key / 16 % 16) (omega arith)),
  ne→== (hex (key % 16)) 0 (hex-ne-zero (key % 16) (omega arith)),
)

number-hex_text :
    (n key : ℕ) (str : List ℕ)
    → key < 256
    → hex_number n (hex_text key ++ str) ≡ hex_number (n * 256 + key) str
unfolding hex_number hex_text
number-hex_text n key str h =
    ap (λ t. hex_number t str)
      (omega (
        arith,
        (hex_digit (key / 16 % 16) (omega arith)).0,
        (hex_digit (key % 16) (omega arith)).0,
      ))

hex_text-IsHexDigit :
    (key : ℕ) (str : List ℕ) → All IsHexDigit str → All IsHexDigit (hex_text key ++ str)
unfolding hex_text
hex_text-IsHexDigit key str h =
    ((hex_digit (key / 16 % 16) (omega arith)).1, ((hex_digit (key % 16) (omega arith)).1, h))

length-hex_text : (key : ℕ) (str : List ℕ) → length (hex_text key ++ str) ≡ suc (suc (length str))
unfolding hex_text
length-hex_text key str = refl

-- The text has eight characters, each from 0 to 9 or from A to F, and stands for the number.
pub record IsHex (text : List ℕ) (key : ℕ) : Type 0 where
  pub places : length text ≡ 8
  pub digits : All IsHexDigit text
  pub value : hex_number 0 text ≡ key

module _ (key : ℕ) (h : key < 2 ^ 32) where
  abbrev a : ℕ
  a = key / 65536 % 65536 / 256 % 256

  abbrev b : ℕ
  b = key / 65536 % 65536 % 256

  abbrev c : ℕ
  c = key % 65536 / 256 % 256

  abbrev d : ℕ
  d = key % 65536 % 256

  whole : hex_number ((((0 * 256 + a) * 256 + b) * 256 + c) * 256 + d) [] ≡ key
  unfolding hex_number
  whole = omega arith

  hex_text32-IsHex : IsHex (hex_text32 key) key
  unfolding hex_text32
  hex_text32-IsHex = record {
    places =
        length-hex_text a (hex_text b ++ (hex_text c ++ (hex_text d ++ [])))
        ∙ ap (λ n. suc (suc n)) (length-hex_text b (hex_text c ++ (hex_text d ++ [])))
        ∙ ap (λ n. suc (suc (suc (suc n)))) (length-hex_text c (hex_text d ++ []))
        ∙ ap (λ n. suc (suc (suc (suc (suc (suc n)))))) (length-hex_text d []);
    digits = hex_text-IsHexDigit a (hex_text b ++ (hex_text c ++ (hex_text d ++ []))) (
        hex_text-IsHexDigit b (hex_text c ++ (hex_text d ++ []))
          (hex_text-IsHexDigit c (hex_text d ++ []) (hex_text-IsHexDigit d [] tt)));
    value =
        number-hex_text 0 a (hex_text b ++ (hex_text c ++ (hex_text d ++ []))) (omega arith)
        ∙ number-hex_text (0 * 256 + a) b (hex_text c ++ (hex_text d ++ [])) (omega arith)
        ∙ number-hex_text ((0 * 256 + a) * 256 + b) c (hex_text d ++ []) (omega arith)
        ∙ number-hex_text (((0 * 256 + a) * 256 + b) * 256 + c) d [] (omega arith)
        ∙ whole;
  }

  printf-hex_text32 : (s : Screen) → printf s (hex_text32 key) ≡ printf_hex32 s key
  unfolding hex_text32 printf_hex32 printf_hex16
  printf-hex_text32 s =
      printf-hex_text s a (hex_text b ++ (hex_text c ++ (hex_text d ++ [])))
      ∙ printf-hex_text (printf_hex s a) b (hex_text c ++ (hex_text d ++ []))
      ∙ printf-hex_text (printf_hex (printf_hex s a) b) c (hex_text d ++ [])
      ∙ printf-hex_text (printf_hex (printf_hex (printf_hex s a) b) c) d []
      ∙ printf-nil (printf_hex (printf_hex (printf_hex (printf_hex s a) b) c) d)

-- `printfHex32` of a 32-bit word prints, as `printf` would, a text of eight hexadecimal digits,
-- each from 0 to 9 or from A to F, that stands for that word.
pub printf_hex32-text :
    (s : Screen) (key : ℕ)
    → key < 2 ^ 32
    → (text : List ℕ) × (printf_hex32 s key ≡ printf s text) × IsHex text key
printf_hex32-text s key h =
    (hex_text32 key, sym (printf-hex_text32 key h s), hex_text32-IsHex key h)
