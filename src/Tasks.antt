-- ===== src/Tasks.antt =====
-- The functions of src/common/tests.cpp that the kernel's processes run. An `int32_t` is its 32-bit
-- pattern.

pub mod Collatz
pub mod Decimal
pub mod Reading
pub mod Search
use a_simple_microkernel.Prelude.{
  ℕ, zero, suc, ◌+◌, ◌-◌, ◌*◌, ◌/◌, ◌%◌, ◌^◌, ℤ, pos, negsuc, eq_ℤ, lt_ℤ, ltb, not, Bool, true,
  false, Option, none, some, List, [], ◌∷◌, ◌&&◌, leb, ◌==◌, if◌then◌else◌, ◌>>=◌, codes,
}
use a_simple_microkernel.Screen.{Screen, printf, printf_int}
use a_simple_microkernel.Input.{Input, gets}

abbrev pub is_digit : ℕ → Bool
is_digit c = leb c b'9' && leb b'0' c

-- The loop of `str_to_int`, with `len` rounds left. The list is the text from `i` on.
unfoldable pub str_to_int_from : ℕ → List ℕ → ℕ → ℕ
str_to_int_from result str zero = result
str_to_int_from result [] (suc len) = result
str_to_int_from result (c ∷ str) (suc len) =
    let rest = str_to_int_from ((result * 10 + c - 48) % 2 ^ 32) str len in
    if is_digit c then rest else result

unfoldable pub str_to_int : List ℕ → ℕ → ℕ
unfolding str_to_int_from
str_to_int str len = str_to_int_from 0 str len

-- The number that a 32-bit pattern stands for.
abbrev pub signed : ℕ → ℤ
signed v = if ltb v (2 ^ 31) then pos v else negsuc (2 ^ 32 - 1 - v)

-- `binary_search`, with fuel for the depth of the calls. `arr i` is the element at index `i`, and an
-- array that begins at another index is another function. The sum of the last line is a `size_t`, so
-- the -1 of a search that finds nothing is 2 ^ 32 - 1 in it.
unfoldable pub binary_search : ℕ → (ℕ → ℤ) → ℕ → ℤ → Option ℕ
binary_search zero arr len target = none
binary_search (suc fuel) arr len target =
    if len == 0
    then some (2 ^ 32 - 1)
    else if eq_ℤ (arr (len / 2)) target
    then some (len / 2)
    else elim (lt_ℤ target (arr (len / 2))) [
      | true ↦ binary_search fuel arr (len / 2) target
      | false ↦ binary_search fuel (λ i. arr (len / 2 + i)) (len / 2) target >>= λ r.
          some ((len / 2 + r) % 2 ^ 32)
    ]

-- The loop of `linear_search`, with `n` elements left from `i` on.
unfoldable pub linear_search_from : (ℕ → ℤ) → ℕ → ℕ → ℤ → ℕ
linear_search_from arr zero i target = 2 ^ 32 - 1
linear_search_from arr (suc n) i target =
    let rest = linear_search_from arr n (i + 1) target in if eq_ℤ (arr i) target then i else rest

unfoldable pub linear_search : (ℕ → ℤ) → ℕ → ℤ → ℕ
linear_search arr len target = linear_search_from arr len 0 target

-- `collatz_sequence` prints a number and goes on with the next one until it is 1. The fuel bounds
-- the number of calls.
unfoldable pub collatz_sequence : ℕ → Screen → ℕ → Option Screen
collatz_sequence zero s num = none
collatz_sequence (suc fuel) s num =
    let s' = printf (printf_int s num) (codes " ") in
    if num == 1 then some s' else elim (num % 2 == 0) [
      | true ↦ collatz_sequence fuel s' (num / 2)
      | false ↦ collatz_sequence fuel s' ((num * 3 + 1) % 2 ^ 32)
    ]

-- What a task works on: the screen, and the line that is entered at the keyboard.
pub record Terminal : Type 0 where
  pub screen : Screen
  pub input : Input

abbrev pub say : Terminal → List ℕ → Terminal
say t text = record t { screen = printf t.screen text }

-- A character array and what lies behind it, after bytes are written to its beginning.
unfoldable pub store_bytes : (ℕ → ℕ) → List ℕ → ℕ → ℕ
store_bytes buffer [] j = buffer j
store_bytes buffer (b ∷ bs) j = if j == 0 then b else store_bytes (λ i. buffer (i + 1)) bs (j - 1)

-- The `n` bytes from `j` on.
unfoldable pub text_at : ℕ → (ℕ → ℕ) → ℕ → List ℕ
text_at zero buffer j = []
text_at (suc n) buffer j = buffer j ∷ text_at n buffer (j + 1)

-- `str_to_int(&buffer[j], len)`.
unfoldable pub number_at : (ℕ → ℕ) → (j len : ℕ) → ℕ
number_at buffer j len = str_to_int (text_at len buffer j) len

-- `for(j++; j < 256 && !(buffer[j] <= '9' && buffer[j] >= '0'); j++);` with at most `n` rounds, from
-- behind the first `j++`.
unfoldable pub skip : ℕ → (ℕ → ℕ) → ℕ → ℕ
skip zero buffer j = j
skip (suc n) buffer j =
    let rest = skip n buffer (j + 1) in if ltb j 256 && not (is_digit (buffer j)) then rest else j

unfoldable pub set_element : (ℕ → ℤ) → ℕ → ℤ → ℕ → ℤ
set_element array i v k = if k == i then v else array k

-- The loop that reads the array, with `n` elements left from `i` on. The length that `str_to_int` is
-- given is 255 - j as a `uint16_t`; 256 rounds are enough for the inner loop, since it ends at 256.
unfoldable pub fill : ℕ → (ℕ → ℕ) → (ℕ → ℤ) → (i j : ℕ) → ℕ → ℤ
unfolding set_element
fill zero buffer array i j = array
fill (suc n) buffer array i j =
    let cleared = set_element array i (pos 0) in
    let read =
      if is_digit (buffer j)
      then set_element cleared i
          (signed (number_at buffer j ((255 + 2 ^ 16 - j % 2 ^ 16) % 2 ^ 16)))
      else cleared in
    let j' = skip 256 buffer (j + 1) in
    let rest = fill n buffer read (i + 1) j' in if buffer j' == 0 then read else rest

-- `await` is what the interrupts do until the line is entered: it is not the tasks' own code.
module _ (await : Terminal → Terminal) where
  -- `gets` into a character array.
  unfoldable pub read_line : Terminal → (ℕ → ℕ) → ℕ → Option ((ℕ → ℕ) × Terminal)
  read_line t buffer len =
      let t' = await t in
      gets t'.input len >>= λ (line, s). some (store_bytes buffer line, record t' { input = s })

  -- What the two tasks that search an array read: the array, its length and the target.
  unfoldable pub read_search : Terminal → (ℕ → ℕ) → (ℕ → ℤ) → Option ((ℕ → ℤ) × ℕ × ℤ × Terminal)
  read_search t buffer array =
      read_line (say t (codes "Enter the size of the array to be scaned: ")) buffer 255
      >>= λ (b1, t1).
          let length = number_at b1 0 255 in
          read_line
            (say t1 (
              codes
                "Enter the array to be scaned in the format \"number1 number2\" without quotes: "))
            b1 255
          >>= λ (b2, t2).
              let filled = fill (if ltb length (2 ^ 31) then length else 0) b2 array 0 0 in
              read_line (say t2 (codes "Enter the number to search for: ")) b2 255 >>= λ (b3, t3).
              some (filled, length, signed (number_at b3 0 255), t3)

  -- The state in which `task_binary_search` calls `exit`.
  unfoldable pub task_binary_search : ℕ → Terminal → (ℕ → ℕ) → (ℕ → ℤ) → Option Terminal
  task_binary_search fuel t buffer array =
      read_search (say t (codes "binary search: \n")) buffer array
      >>= λ (filled, length, target, t').
          let t1 = say t' (codes "Result: ") in
          binary_search fuel filled length target >>= λ r.
          some (record t1 { screen = printf (printf_int t1.screen r) (codes "\n") })

  unfoldable pub task_linear_search : Terminal → (ℕ → ℕ) → (ℕ → ℤ) → Option Terminal
  task_linear_search t buffer array =
      read_search (say t (codes "linear search: ")) buffer array >>= λ (filled, length, target, t').
      let t1 = say t' (codes "Result: ") in
      some (record t1 {
        screen = printf (printf_int t1.screen (linear_search filled length target)) (codes "\n");
      })

-- The loop of `task_collatz_sequence`, from `i` down to 1.
unfoldable pub collatz_sequences : ℕ → Screen → ℕ → Option Screen
collatz_sequences fuel s zero = some s
collatz_sequences fuel s (suc i) =
    collatz_sequence fuel (printf (printf_int s (suc i)) (codes ": ")) (suc i) >>= λ s'.
    collatz_sequences fuel (printf s' (codes "\n")) i

unfoldable pub task_collatz_sequence :
    (Terminal → Terminal) → ℕ → Terminal → (ℕ → ℕ) → Option Terminal
task_collatz_sequence await fuel t buffer =
    read_line await
      (say (say t (codes "Collatz Sequence:\n")) (
        codes
          "Please enter x where the collatz sequence will be calculated for all numbers between 0 and x: "))
      buffer 16
    >>= λ (b, t').
        let number = number_at b 0 15 in
        collatz_sequences fuel t'.screen (if ltb number (2 ^ 31) then number else 0) >>= λ s.
        some (record t' { screen = s })
