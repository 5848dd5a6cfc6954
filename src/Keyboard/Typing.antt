-- ===== src/Keyboard/Typing.antt =====
-- From key presses to the line that `gets` reads.
use mathlib.Core.List.{append_assoc}
use a_simple_microkernel.Prelude.{
  ℕ, ◌+◌, ◌^◌, ◌≤◌, ◌<◌, ◌≡◌, refl, ◌∙◌, ap, subst, pos, Option, some, List, [], ◌∷◌, ◌++◌, length,
  length-append, arith, lt→ltb, ◌>>=◌,
}
use a_simple_microkernel.Store.{Ptr}
use a_simple_microkernel.Screen.Decimal.{decimal}
use a_simple_microkernel.Tasks.{str_to_int}
use a_simple_microkernel.Tasks.Decimal.{str_to_int-decimal}
use a_simple_microkernel.Input.{Input, gets}
use a_simple_microkernel.Input.Line.{Holds, add_to_buffer-Holds, gets-line}
use a_simple_microkernel.Keyboard.{Console, key_char, type_char, enter, handle_interrupt}

-- The keyboard interrupts of a sequence of keys, each taken in the state that the one before leaves.
unfoldable pub press : ℕ → Console → List ℕ → Ptr → Option Console
press fuel c [] esp = some c
press fuel c (key ∷ ks) esp =
    handle_interrupt fuel c key esp >>= λ (frame, c'). press fuel c' ks esp

-- The keys type the characters.
abbrev pub Types : List ℕ → List ℕ → Type 0
Types [] [] = Unit
Types [] (ch ∷ chs) = ⊥
Types (k ∷ ks) [] = ⊥
Types (k ∷ ks) (ch ∷ chs) = (k < 0x80) × (key_char k ≡ some ch) × Types ks chs

abbrev pub enter_key : ℕ
enter_key = 0x1C

module _ (fuel esp : ℕ) where
  handle-type :
      (c : Console) (k ch : ℕ)
      → k < 0x80
      → key_char k ≡ some ch
      → handle_interrupt fuel c k esp ≡ some (esp, type_char c ch)
  unfolding handle_interrupt
  handle-type c k ch lt e = rw (lt→ltb k 0x80 lt, e)

  handle-enter : (c : Console) → handle_interrupt fuel c enter_key esp ≡ some (esp, enter c)
  unfolding handle_interrupt
  handle-enter c = refl

  -- Typing keys, then the enter key.
  press-Holds :
      (c : Console) (ks chs xs : List ℕ)
      → Types ks chs
      → Holds c.input xs
      → length xs + length chs < 256
      → (c' : Console) × (press fuel c (ks ++ enter_key ∷ []) esp ≡ some c')
        × Holds c'.input (xs ++ (chs ++ 0 ∷ []))
        × (c'.input.ready ≡ pos 1)
  unfolding press
  press-Holds c [] [] xs t h lt =
      let held =
        add_to_buffer-Holds (record c.input { ready = pos 1 }) xs 0
          (record { index = h.index; bytes = h.bytes }) (omega arith) in
      (enter c, rw (handle-enter c), unfold enter in held.0, unfold enter in held.1)
  press-Holds c [] (ch ∷ chs) xs t h lt = absurd t
  press-Holds c (k ∷ ks) [] xs t h lt = absurd t
  press-Holds c (k ∷ ks) (ch ∷ chs) xs (small, e, t) h lt =
      let held = add_to_buffer-Holds c.input xs ch h (omega arith) in
      let (c', run, all, r) =
        press-Holds (type_char c ch) ks chs (xs ++ ch ∷ []) t (unfold type_char in held.0)
          (omega (arith, length-append {0} xs (ch ∷ []))) in
      (
        c',
        rw (handle-type c k ch small e) run,
        subst (Holds c'.input) (append_assoc xs (ch ∷ []) (chs ++ 0 ∷ [])) all,
        r,
      )

  -- From an empty input, keys that type the characters `chs`, at most 255 of them, and the enter key
  -- make `gets` with room for them and a null read `chs` and a null, whatever stands behind; the
  -- input is then empty and waits for the next line.
  pub press-gets :
      (c : Console) (ks chs : List ℕ) (len : ℕ)
      → Types ks chs
      → Holds c.input []
      → length chs < 256
      → length chs < len
      → (c' : Console) × (junk : List ℕ) × (s' : Input) × (press fuel c (ks ++ enter_key ∷ []) esp
          ≡ some c')
        × (gets c'.input len ≡ some (chs ++ 0 ∷ junk, s'))
        × Holds s' []
        × (s'.ready ≡ pos 0)
  press-gets c ks chs len t h lt fit =
      let (c', run, held, r) = press-Holds c ks chs [] t h (omega arith) in
      let (junk, s', got, rest, waits) =
        gets-line c'.input (chs ++ 0 ∷ []) len held r
          (omega (arith, length-append {0} chs (0 ∷ []))) in
      (
        c',
        junk,
        s',
        run,
        got ∙ ap (λ t. some (t, s')) (append_assoc chs (0 ∷ []) junk),
        rest,
        waits,
      )

  -- When the keys type the decimal digits of a number below 2 ^ 31, the tasks read that number from
  -- the line that `gets` gives them.
  pub press-number :
      (c : Console) (ks : List ℕ) (n len limit : ℕ)
      → n < 2 ^ 31
      → Types ks (decimal n)
      → Holds c.input []
      → length (decimal n) < len
      → length (decimal n) ≤ limit
      → len ≤ 255
      → (c' : Console) × (line : List ℕ) × (s' : Input) × (press fuel c (ks ++ enter_key ∷ []) esp
          ≡ some c')
        × (gets c'.input len ≡ some (line, s'))
        × (str_to_int line limit ≡ n)
  press-number c ks n len limit small t h fit room_ byte =
      let (c', junk, s', run, got, rest, waits) =
        press-gets c ks (decimal n) len t h (omega arith) fit in
      (c', decimal n ++ 0 ∷ junk, s', run, got, str_to_int-decimal n junk limit small room_)
