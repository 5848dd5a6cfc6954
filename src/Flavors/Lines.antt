-- ===== src/Flavors/Lines.antt =====
-- The lines of src/flavor1.cpp, src/flavor2.cpp and src/flavor3.cpp that hold a number.
use a_simple_microkernel.Prelude.{
  ℕ, ◌+◌, ◌-◌, ◌^◌, ◌<◌, ◌≡◌, refl, ap, sym, ◌∙◌, List, ◌++◌, codes, arith, lt→ltb, le→ltb, ltb,
  if◌then◌else◌, dec_lt, inl, inr,
}
use mathlib.Core.Path.{fun_ext}
use a_simple_microkernel.Screen.{Screen, printf, printf_int}
use a_simple_microkernel.Screen.Decimal.{
  Printable, decimal, printf-append, printf_int-natural, decimal-Printable,
}
use a_simple_microkernel.Screen.Signed.{decimal-IsDecimal, printf_int-negative}
use a_simple_microkernel.Flavors.{
  Task, binary_search, linear_search, collatz_sequence, name, line, extended,
}
use a_simple_microkernel.Flavors.Jobs.{IsSigned, report, farewell}

-- The notation of a 16-bit pattern.
pub signed : ℕ → List ℕ
signed v = if ltb v (2 ^ 15) then decimal v else codes "-" ++ decimal (2 ^ 16 - v)

pub signed-IsSigned : (v : ℕ) → v < 2 ^ 16 → IsSigned (signed v) v
unfolding signed
signed-IsSigned v lt = elim (dec_lt v (2 ^ 15)) [
  | yes h ↦ rw (lt→ltb v (2 ^ 15) h) (inl (h, decimal-IsDecimal v (omega arith)))
  | no h ↦ rw (le→ltb v (2 ^ 15) (omega arith)) (
      inr (omega arith, (decimal (2 ^ 16 - v), refl, decimal-IsDecimal (2 ^ 16 - v) (omega arith))))
]

signed-Printable : (v : ℕ) → v < 2 ^ 16 → Printable (signed v)
unfolding signed
signed-Printable v lt = elim (dec_lt v (2 ^ 15)) [
  | yes h ↦ rw (lt→ltb v (2 ^ 15) h) (decimal-Printable v (omega arith))
  | no h ↦
      rw (le→ltb v (2 ^ 15) (omega arith))
        ((λ e. absurd (omega arith)), decimal-Printable (2 ^ 16 - v) (omega arith))
]

printf_int-signed :
    (v : ℕ) (s : Screen) → v < 2 ^ 16 → printf_int s (extended v) ≡ printf s (signed v)
unfolding extended signed
printf_int-signed v s lt = elim (dec_lt v (2 ^ 15)) [
  | yes h ↦ rw (lt→ltb v (2 ^ 15) h) (printf_int-natural s v (omega arith))
  | no h ↦
      let n : ℕ = v + (2 ^ 32 - 2 ^ 16) in
      let same : 2 ^ 32 - n ≡ 2 ^ 16 - v = omega arith in
      rw (le→ltb v (2 ^ 15) (omega arith)) (
        printf_int-negative s n (omega arith) (omega arith)
        ∙ ap (λ k. printf s (codes "-" ++ decimal k)) same)
]

line-signed :
    (text : List ℕ) (v : ℕ)
    → Printable text
    → v < 2 ^ 16
    → line text v ≡ (λ s. printf s (text ++ (signed v ++ codes "\n")))
unfolding line
line-signed text v clear lt = fun_ext λ s.
    ap (λ t. printf t (codes "\n")) (printf_int-signed v (printf s text) lt)
    ∙ sym (printf-append (printf s text) (signed v) (codes "\n") (signed-Printable v lt))
    ∙ sym (printf-append s text (signed v ++ codes "\n") clear)

pub line-report :
    (task : Task) (v : ℕ)
    → v < 2 ^ 16
    → line (name task) v ≡ (λ s. printf s (report task (signed v)))
unfolding name report
line-report binary_search v lt =
    line-signed (codes "Binary search forked with pid ") v (omega arith) lt
line-report linear_search v lt =
    line-signed (codes "Linear search forked with pid ") v (omega arith) lt
line-report collatz_sequence v lt =
    line-signed (codes "Collatz Sequence forked with pid ") v (omega arith) lt

pub line-farewell :
    (v : ℕ)
    → v < 2 ^ 16
    → line (codes "Process exited with pid ") v ≡ (λ s. printf s (farewell (signed v)))
unfolding farewell
line-farewell v lt = line-signed (codes "Process exited with pid ") v (omega arith) lt
