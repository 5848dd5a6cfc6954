-- ===== src/Examples/Printing.antt =====
-- The screen at concrete data.
use a_simple_microkernel.Prelude.{ℕ, List, ◌-◌, ◌^◌, ◌≡◌, refl, ◌∷◌, ◌++◌, arith, codes}
use a_simple_microkernel.Screen.{Screen, printf, printf_int, printf_hex32, digits, hex}
use a_simple_microkernel.Screen.Bounds.{Printed, printf-Printed}
use a_simple_microkernel.Screen.Decimal.{decimal, turned}
use a_simple_microkernel.Screen.Signed.{Signed, printf_int-decimal}
use a_simple_microkernel.Screen.Hex.{hex_text32, IsHex, printf_hex32-text}
use a_simple_microkernel.Tasks.{str_to_int}
use a_simple_microkernel.Tasks.Decimal.{str_to_int-decimal}

abbrev pub corner : Screen
corner = record { video = λ i. 0x0F20; row = 24; column = 38; half = 0 }

printf-Printed_example : Printed corner (printf corner (codes "OS booting\n"))
printf-Printed_example = printf-Printed corner (codes "OS booting\n") (omega arith)

printf_int-decimal_example : Signed corner (2 ^ 32 - 4096) (printf_int corner (2 ^ 32 - 4096))
printf_int-decimal_example = printf_int-decimal corner (2 ^ 32 - 4096) (omega arith)

decimal-4096 : decimal 4096 ≡ codes "4096"
unfolding decimal turned digits
decimal-4096 = refl

str_to_int-decimal_example : str_to_int (decimal 4096 ++ 0 ∷ codes "12") 15 ≡ 4096
str_to_int-decimal_example =
    str_to_int-decimal 4096 (codes "12") 15 (omega arith)
      (unfold decimal turned digits in omega arith)

printf_hex32-text_example :
    (text : List ℕ) × (printf_hex32 corner 0xBEEF ≡ printf corner text) × IsHex text 0xBEEF
printf_hex32-text_example = printf_hex32-text corner 0xBEEF (omega arith)

hex_text32-beef : hex_text32 0xBEEF ≡ codes "0000BEEF"
unfolding hex_text32 hex
hex_text32-beef = refl
