-- ===== src/Tasks/Collatz.antt =====
-- What `collatz_sequence` of src/common/tests.cpp prints.
use a_simple_microkernel.Prelude.{
  ℕ, zero, suc, ◌+◌, ◌*◌, ◌^◌, ◌<◌, ◌≡◌, refl, none, List, [], ◌∷◌, codes,
}
use a_simple_microkernel.Screen.{Screen, printf, printf_int}
use a_simple_microkernel.Tasks.{collatz_sequence}

-- The sequence from a number down to 1, in mathematical integers.
pub data Collatz : ℕ → List ℕ → Type 0 where
  last : Collatz 1 (1 ∷ [])
  even : (n : ℕ) (ns : List ℕ) → Collatz (n + 1) ns → Collatz ((n + 1) * 2) (((n + 1) * 2) ∷ ns)
  odd :
      (n : ℕ) (ns : List ℕ)
      → (2 * n + 3) * 3 + 1 < 2 ^ 32
      → Collatz ((2 * n + 3) * 3 + 1) ns
      → Collatz (2 * n + 3) ((2 * n + 3) ∷ ns)

-- The numbers, each followed by a space.
abbrev pub print_all : Screen → List ℕ → Screen
print_all s [] = s
print_all s (n ∷ ns) = print_all (printf (printf_int s n) (codes " ")) ns

-- From 0 it never ends, whatever the fuel: every next number is 0 again.
pub collatz_sequence-zero : (fuel : ℕ) (s : Screen) → collatz_sequence fuel s 0 ≡ none
unfolding collatz_sequence
collatz_sequence-zero zero s = refl
collatz_sequence-zero (suc fuel) s = collatz_sequence-zero fuel _
