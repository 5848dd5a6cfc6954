-- ===== src/Keyboard/Editing.antt =====
-- The keyboard and the input buffer as an editor of one line, which forgets the array, the index and
-- the screen.
use a_simple_microkernel.Prelude.{
  ℕ, zero, suc, ◌+◌, ◌≤◌, ◌≡◌, ◌≢◌, refl, sym, ◌∙◌, ap, ap₂, le→leb, lt→leb, subst, ℤ, pos, negsuc,
  pred_ℤ, le_ℤ, Bool, true, none, some, List, [], ◌∷◌, ◌++◌, length, length-append, arith, ltb, leb,
  ◌==◌, if◌then◌else◌, lt→ltb, le→ltb, ne→==, ℕ_discrete, Bool-cases, Option-cases, dec_lt, inl,
  inr,
}
use a_simple_microkernel.Input.{Input, set_byte, copy, add_to_buffer}
use a_simple_microkernel.Input.Line.{
  Holds, input, last_index, add_to_buffer-Holds, add_to_buffer-full,
}
use a_simple_microkernel.Keyboard.{
  Console, key_char, type_char, enter, backspace, other_key, handle_interrupt,
}

-- What a user of the input sees: the bytes typed, and whether a line has been entered.
pub record Line : Type 0 where
  pub text : List ℕ
  pub entered : Bool

-- At most 256 bytes are taken.
unfoldable pub push : List ℕ → ℕ → List ℕ
push xs c = if ltb (length xs) 256 then xs ++ c ∷ [] else xs

unfoldable pub drop_last : List ℕ → List ℕ
drop_last [] = []
drop_last (x ∷ []) = []
drop_last (x ∷ y ∷ xs) = x ∷ drop_last (y ∷ xs)

-- What a key does to the line.
unfoldable pub edit : ℕ → Line → Line
edit key t = if leb 0x80 key then t else elim (key_char key) [
  | some c ↦ record t { text = push t.text c }
  | none ↦
      if key == 0x1C
      then record { text = push t.text 0; entered = true }
      else if key == 0x0E
      then record t { text = drop_last t.text }
      else t
]

unfoldable pub edits : List ℕ → Line → Line
edits [] t = t
edits (key ∷ ks) t = edits ks (edit key t)

-- The buffer of the source stands for a line.
pub record Refines (s : Input) (t : Line) : Type 0 where
  pub text : Holds s t.text
  pub entered : le_ℤ 1 s.ready ≡ t.entered
  pub fits : length t.text ≤ 256

push-Refines :
    (s : Input) (t : Line) (c : ℕ)
    → Refines s t
    → Refines (add_to_buffer s c) (record t { text = push t.text c })
unfolding push
push-Refines s t c r = elim (dec_lt (length t.text) 256) [
  | yes lt ↦
      let (held, same) = add_to_buffer-Holds s t.text c r.text lt in
      rw (lt→ltb (length t.text) 256 lt) (record {
        text = held;
        entered = ap (le_ℤ 1) same ∙ r.entered;
        fits = omega (arith, length-append {0} t.text (c ∷ []));
      })
  | no ge ↦ rw (le→ltb (length t.text) 256 (omega arith)) (
      subst (λ x. Refines x t) (sym (add_to_buffer-full s t.text c r.text (omega (arith, r.fits))))
        r)
]

length-drop_last : (x : ℕ) (xs : List ℕ) → suc (length (drop_last (x ∷ xs))) ≡ length (x ∷ xs)
unfolding drop_last
length-drop_last x [] = refl
length-drop_last x (y ∷ xs) = ap suc (length-drop_last y xs)

-- Blanking the last byte leaves the bytes before it.
copy-drop_last :
    (b : ℤ → ℕ) (i k : ℕ) (x : ℕ) (xs : List ℕ)
    → k ≡ i + length xs
    → copy (length (x ∷ xs)) b i ≡ x ∷ xs
    → copy (length (drop_last (x ∷ xs))) (set_byte b (pos k) 0) i ≡ drop_last (x ∷ xs)
unfolding copy set_byte drop_last
copy-drop_last b i k x [] e h = refl
copy-drop_last b i k x (y ∷ xs) e h =
    let tail : copy (length (y ∷ xs)) b (i + 1) ≡ y ∷ xs = cc in
    let head : b (pos i) ≡ x = cc in
    ap₂ ◌∷◌ (ground arith) (copy-drop_last b (i + 1) k y xs (omega arith) tail)

backspace_empty :
    (b : ℤ → ℕ) (i r : ℤ)
    → i ≡ negsuc 0
    → backspace (input b i r) ≡ input (set_byte b (negsuc 0) 0) (negsuc 0) r
unfolding backspace
backspace_empty b i r e = rw e

backspace_some :
    (b : ℤ → ℕ) (i r : ℤ) (n : ℕ)
    → i ≡ pos n
    → backspace (input b i r) ≡ input (set_byte b (pos n) 0) (pred_ℤ (pos n)) r
unfolding backspace
backspace_some b i r n e = rw (e, le→leb 0 n (omega arith))

pred-last_index : (n : ℕ) → pred_ℤ (pos n) ≡ last_index n
pred-last_index zero = refl
pred-last_index (suc n) = refl

backspace-Holds :
    (b : ℤ → ℕ) (i r : ℤ) (xs : List ℕ)
    → Holds (input b i r) xs
    → Holds (backspace (input b i r)) (drop_last xs) × ((backspace (input b i r)).ready ≡ r)
backspace-Holds b i r [] h =
    subst (λ s. Holds s (drop_last []) × (s.ready ≡ r)) (sym (backspace_empty b i r h.index))
      (unfold drop_last copy in (record { index = refl; bytes = refl }, refl))
backspace-Holds b i r (x ∷ xs) h =
    let n = length xs in
    let size : length (drop_last (x ∷ xs)) ≡ n = omega (arith, length-drop_last x xs) in
    subst (λ s. Holds s (drop_last (x ∷ xs)) × (s.ready ≡ r)) (sym (backspace_some b i r n h.index))
      (
        record {
          index = pred-last_index n ∙ ap last_index (sym size);
          bytes = copy-drop_last b 0 n x xs (omega arith) h.bytes;
        },
        refl,
      )

length-drop_last-le : (xs : List ℕ) → length (drop_last xs) ≤ length xs
unfolding drop_last
length-drop_last-le [] = omega arith
length-drop_last-le (x ∷ xs) = omega (arith, length-drop_last x xs)

backspace-Refines :
    (s : Input) (t : Line)
    → Refines s t
    → Refines (backspace s) (record t { text = drop_last t.text })
backspace-Refines s t r =
    let (held, same) = backspace-Holds s.in_buffer s.buf_index s.ready t.text r.text in
    record {
      text = held;
      entered = ap (le_ℤ 1) same ∙ r.entered;
      fits = omega (arith, length-drop_last-le t.text, r.fits);
    }

enter-Refines :
    (s : Input) (t : Line)
    → Refines s t
    → Refines
        (add_to_buffer (record s { ready = pos 1 }) 0)
        (record { text = push t.text 0; entered = true })
enter-Refines s t r =
    push-Refines (record s { ready = pos 1 }) (record t { entered = true }) 0
      (record {
        text = record { index = r.text.index; bytes = r.text.bytes };
        entered = refl;
        fits = r.fits;
      })

other_key-Refines :
    (fuel esp : ℕ) (c : Console) (t : Line) (key : ℕ)
    → key ≢ 0x0F
    → Refines c.input t
    → (c' : Console) × (other_key fuel c key esp ≡ some (esp, c'))
      × Refines c'.input (
          if key == 0x1C
          then record { text = push t.text 0; entered = true }
          else if key == 0x0E
          then record t { text = drop_last t.text }
          else t)
unfolding other_key
other_key-Refines fuel esp c t key ne r = elim (ℕ_discrete key 0x1C) [
  | yes e ↦ rw e (enter c, refl, unfold enter in enter-Refines c.input t r)
  | no n1 ↦ elim (ℕ_discrete key 0x0E) [
    | yes e ↦ rw e (_, refl, backspace-Refines c.input t r)
    | no n2 ↦
        rw (ne→== key 0x1C n1, ne→== key 0x0E n2, ne→== key 0x0F ne)
          (elim (Bool-cases (key == 0x45)) [
            | inl e ↦ rw e (c, refl, r)
            | inr e ↦ rw e (_, refl, r)
          ])
  ]
]

module _ (fuel esp : ℕ) where
  -- A key other than tab leaves the line that `edit` says, and returns the state it was given.
  pub handle_interrupt-Refines :
      (c : Console) (t : Line) (key : ℕ)
      → key ≢ 0x0F
      → Refines c.input t
      → (c' : Console) × (handle_interrupt fuel c key esp ≡ some (esp, c'))
        × Refines c'.input (edit key t)
  unfolding handle_interrupt edit
  handle_interrupt-Refines c t key ne r = elim (dec_lt key 0x80) [
    | no ge ↦ rw (le→ltb key 0x80 (omega arith), le→leb 0x80 key (omega arith)) (c, refl, r)
    | yes lt ↦
        rw (lt→ltb key 0x80 lt, lt→leb 0x80 key lt)
          (elim (Option-cases (key_char key)) [
            | inr (ch, e) ↦
                rw e (type_char c ch, refl, unfold type_char in push-Refines c.input t ch r)
            | inl e ↦ rw e (other_key-Refines fuel esp c t key ne r)
          ])
  ]
