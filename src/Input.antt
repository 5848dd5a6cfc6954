-- ===== src/Input.antt =====
-- The input half of src/iolib.cpp, and `add_to_buffer` of src/drivers/keyboard.cpp. The array is a
-- function of the index that the code computes, so that an access outside its 256 bytes shows.
pub mod Line
use a_simple_microkernel.Prelude.{
  ℕ, zero, suc, ◌+◌, ◌-◌, ℤ, pos, negsuc, suc_ℤ, pred_ℤ, eq_ℤ, le_ℤ, Option, none, some, List, [],
  ◌∷◌, if◌then◌else◌,
}

pub record Input : Type 0 where
  pub in_buffer : ℤ → ℕ
  pub buf_index : ℤ
  pub ready : ℤ

unfoldable pub set_byte : (ℤ → ℕ) → ℤ → ℕ → ℤ → ℕ
set_byte buffer i v j = if eq_ℤ j i then v else buffer j

-- A full buffer drops the character.
unfoldable pub add_to_buffer : Input → ℕ → Input
unfolding set_byte
add_to_buffer s c = if le_ℤ 255 s.buf_index then s else record s {
  in_buffer = set_byte s.in_buffer (suc_ℤ s.buf_index) c;
  buf_index = suc_ℤ s.buf_index;
}

-- `getchar`. Both readers wait until a line has been entered: `none` is a wait.
unfoldable pub getchar : Input → Option (ℕ × Input)
unfolding set_byte
getchar s =
    if le_ℤ 1 s.ready
    then some (
      s.in_buffer s.buf_index,
      record s {
        in_buffer = set_byte s.in_buffer s.buf_index 0;
        buf_index = pred_ℤ s.buf_index;
        ready = pos 0;
      },
    )
    else none

-- The copying loop of `gets`, with `n` bytes left from index `i` on.
unfoldable pub copy : ℕ → (ℤ → ℕ) → ℕ → List ℕ
copy zero buffer i = []
copy (suc n) buffer i = buffer (pos i) ∷ copy n buffer (i + 1)

-- `start_i`: the last `len` bytes before the end, or the whole buffer when it holds fewer.
unfoldable pub start_of : ℤ → ℕ → ℕ
start_of (pos b) len = if le_ℤ len (pos b) then b - len else 0
start_of (negsuc b) len = 0

-- `gets` returns the bytes that it copies into the caller's buffer.
unfoldable pub gets : Input → ℕ → Option (List ℕ × Input)
unfolding set_byte start_of
gets s len =
    if le_ℤ 1 s.ready
    then (let start_i = start_of s.buf_index len in
        some (
          copy len s.in_buffer start_i,
          record s {
            in_buffer = set_byte s.in_buffer (pos start_i) 0;
            buf_index = pred_ℤ (pos start_i);
            ready = pos 0;
          },
        ))
    else none
