-- ===== src/Examples/Searching.antt =====
-- The tasks of the kernel's processes at concrete data.
use a_simple_microkernel.Prelude.{ℕ, ◌*◌, ◌≡◌, refl, ℤ, pos, some, arith}
use a_simple_microkernel.Tasks.{binary_search}
use a_simple_microkernel.Tasks.Search.{
  Rising, Found, Missed, binary_search-Found, binary_search-absent,
}
use a_simple_microkernel.Tasks.Collatz.{Collatz}

-- 0, 10, 20, 30, ...
abbrev tens : ℕ → ℤ
tens i = pos (i * 10)

tens-Rising : Rising tens 8
tens-Rising i j le lt = ground arith

binary_search-Found_example : Found (binary_search 4 tens 8 (pos 50)) tens 8 (pos 50)
binary_search-Found_example = binary_search-Found 3 tens 5 tens-Rising (omega arith) (omega arith)

-- Seven elements: the index 3 is returned for a target that is not there.
binary_search-absent_example : Missed (binary_search 4 tens 7 (pos 99)) 3 7
binary_search-absent_example =
    binary_search-absent 3 7 tens (pos 99) (omega arith) (omega arith) (λ i h. ground arith)

missed_at : binary_search 4 tens 7 (pos 99) ≡ some 3
unfolding binary_search
missed_at = refl

-- An array of odd length: the last of three elements is not found.
missed_last : binary_search 4 tens 3 (pos 20) ≡ some 0
unfolding binary_search
missed_last = refl
