-- ===== src/Input/Line.antt =====
-- The input buffer as the bytes typed since it was empty, and what the readers take of them.
use a_simple_microkernel.Prelude.{
  ℕ, zero, suc, ◌+◌, ◌-◌, ◌≤◌, ◌<◌, ◌≡◌, refl, false, subst, sym, ◌∙◌, ap, ap₂, ℤ, pos, negsuc,
  suc_ℤ, pred_ℤ, le_ℤ, some, List, [], ◌∷◌, ◌++◌, length, length-append, arith,
}
use a_simple_microkernel.Input.{Input, set_byte, add_to_buffer, copy, start_of, gets}

-- The index of the last of `n` bytes.
abbrev pub last_index : ℕ → ℤ
last_index zero = negsuc 0
last_index (suc n) = pos n

-- The buffer holds the bytes `xs`, the oldest first.
pub record Holds (s : Input) (xs : List ℕ) : Type 0 where
  pub index : s.buf_index ≡ last_index (length xs)
  pub bytes : copy (length xs) s.in_buffer 0 ≡ xs

copy-set_byte :
    (n : ℕ) (b : ℤ → ℕ) (k i v : ℕ) → i + n ≤ k → copy n (set_byte b (pos k) v) i ≡ copy n b i
unfolding copy set_byte
copy-set_byte zero b k i v h = refl
copy-set_byte (suc n) b k i v h =
    ap₂ ◌∷◌ (ground arith) (copy-set_byte n b k (i + 1) v (omega arith))

copy-add : (n k : ℕ) (b : ℤ → ℕ) (i : ℕ) → copy (n + k) b i ≡ copy n b i ++ copy k b (i + n)
unfolding copy
copy-add zero k b i = ap₂ (λ a c. copy a b c) (omega arith) (omega arith)
copy-add (suc n) k b i =
    let step : suc n + k ≡ suc (n + k) = omega arith in
    let place : i + 1 + n ≡ i + suc n = omega arith in
    rw step (
      ap (◌∷◌ (b (pos i)))
        (copy-add n k b (i + 1) ∙ ap (λ c. copy n b (i + 1) ++ copy k b c) place))

suc-last_index : (n : ℕ) → suc_ℤ (last_index n) ≡ pos n
suc-last_index zero = refl
suc-last_index (suc n) = ap pos (omega arith)

set_byte_self : (b : ℤ → ℕ) (k v : ℕ) → set_byte b (pos k) v (pos k) ≡ v
unfolding set_byte
set_byte_self b k v = ground arith

room : (n : ℕ) → n < 256 → le_ℤ 255 (last_index n) ≡ false
room zero h = refl
room (suc n) h = ground arith

-- The same record, given by its fields.
abbrev pub input : (ℤ → ℕ) → ℤ → ℤ → Input
input b i r = record { in_buffer = b; buf_index = i; ready = r }

add-eq :
    (b : ℤ → ℕ) (i r : ℤ) (n c : ℕ)
    → i ≡ last_index n
    → n < 256
    → add_to_buffer (input b i r) c ≡ input (set_byte b (pos n) c) (pos n) r
unfolding add_to_buffer
add-eq b i r n c e lt = rw (e, room n lt, suc-last_index n)

full-eq :
    (b : ℤ → ℕ) (i r : ℤ) (c : ℕ) → i ≡ last_index 256 → add_to_buffer (input b i r) c ≡ input b i r
unfolding add_to_buffer
full-eq b i r c e = rw e

length-snoc : (xs : List ℕ) (c : ℕ) → length (xs ++ c ∷ []) ≡ suc (length xs)
length-snoc xs c = omega (arith, length-append {0} xs (c ∷ []))

copy-snoc :
    (xs : List ℕ) (b : ℤ → ℕ) (c : ℕ)
    → copy (length xs) b 0 ≡ xs
    → copy (length (xs ++ c ∷ [])) (set_byte b (pos (length xs)) c) 0 ≡ xs ++ c ∷ []
unfolding copy
copy-snoc xs b c h =
    let n = length xs in
    let b' = set_byte b (pos n) c in
    let one : length (xs ++ c ∷ []) ≡ n + 1 = omega (arith, length-snoc xs c) in
    rw one (
      copy-add n 1 b' 0
      ∙ ap₂ ◌++◌ (copy-set_byte n b n 0 c (omega arith) ∙ h)
          (ap (λ v. v ∷ []) (ap (λ k. b' (pos k)) (omega arith) ∙ set_byte_self b n c)))

-- A character typed while the buffer has room goes behind the others.
pub add_to_buffer-Holds :
    (s : Input) (xs : List ℕ) (c : ℕ)
    → Holds s xs
    → length xs < 256
    → Holds (add_to_buffer s c) (xs ++ c ∷ []) × ((add_to_buffer s c).ready ≡ s.ready)
add_to_buffer-Holds s xs c h lt =
    subst (λ t. Holds t (xs ++ c ∷ []) × (t.ready ≡ s.ready))
      (sym (add-eq s.in_buffer s.buf_index s.ready (length xs) c h.index lt))
      (record { index = rw (length-snoc xs c); bytes = copy-snoc xs s.in_buffer c h.bytes }, refl)

-- Once 256 characters are held, further ones are dropped.
pub add_to_buffer-full :
    (s : Input) (xs : List ℕ) (c : ℕ) → Holds s xs → length xs ≡ 256 → add_to_buffer s c ≡ s
add_to_buffer-full s xs c h e =
    full-eq s.in_buffer s.buf_index s.ready c (h.index ∙ ap last_index e)

-- What `gets` leaves.
abbrev Left : Input → ℕ → Input
Left s start = input (set_byte s.in_buffer (pos start) 0) (pred_ℤ (pos start)) (pos 0)

gets-eq :
    (b : ℤ → ℕ) (i r : ℤ) (len start : ℕ)
    → r ≡ pos 1
    → start_of i len ≡ start
    → gets (input b i r) len ≡ some (copy len b start, Left (input b i r) start)
unfolding gets
gets-eq b i r len start e h = rw (e, h)

start_short : (n len : ℕ) → n ≤ len → start_of (last_index n) len ≡ 0
unfolding start_of
start_short zero len h = refl
start_short (suc n) len h = ground arith

start_long : (n len : ℕ) → len ≤ n → start_of (last_index (suc n)) len ≡ n - len
unfolding start_of
start_long n len h = ground arith

Left-Holds :
    (s : Input) (n : ℕ) (ys : List ℕ)
    → copy n s.in_buffer 0 ≡ ys
    → n ≡ length ys
    → Holds (Left s n) ys
unfolding set_byte copy
Left-Holds s zero ys h e = record { index = rw (← e); bytes = rw (← e) h }
Left-Holds s (suc n) ys h e = record {
  index = rw (← e);
  bytes = rw (← e) (copy-set_byte (suc n) s.in_buffer (suc n) 0 0 (omega arith) ∙ h);
}

-- A line that has been entered and is no longer than the caller's buffer is read whole, followed by
-- whatever stood behind it, and the input is empty and no longer ready.
pub gets-line :
    (s : Input) (xs : List ℕ) (len : ℕ)
    → Holds s xs
    → s.ready ≡ pos 1
    → length xs ≤ len
    → (junk : List ℕ) × (s' : Input) × (gets s len ≡ some (xs ++ junk, s'))
      × Holds s' []
      × (s'.ready ≡ pos 0)
gets-line s xs len h r fit =
    let n = length xs in
    let whole : copy len s.in_buffer 0 ≡ xs ++ copy (len - n) s.in_buffer (0 + n) =
      ap (λ k. copy k s.in_buffer 0) (omega arith)
      ∙ copy-add n (len - n) s.in_buffer 0
      ∙ ap (λ t. t ++ copy (len - n) s.in_buffer (0 + n)) h.bytes in
    (
      copy (len - n) s.in_buffer (0 + n),
      Left s 0,
      gets-eq s.in_buffer s.buf_index s.ready len 0 r
            (ap (λ i. start_of i len) h.index ∙ start_short n len fit)
          ∙ ap (λ t. some (t, Left s 0)) whole,
      Left-Holds s 0 [] (unfold copy in refl) refl,
      refl,
    )

append-split :
    (xs xs' ys ys' : List ℕ)
    → length xs ≡ length xs'
    → xs ++ ys ≡ xs' ++ ys'
    → (xs ≡ xs') × (ys ≡ ys')
append-split [] [] ys ys' l e = (refl, e)
append-split [] (x ∷ xs') ys ys' l e = absurd (omega arith)
append-split (x ∷ xs) [] ys ys' l e = absurd (omega arith)
append-split (x ∷ xs) (x' ∷ xs') ys ys' l e =
    let rest = append-split xs xs' ys ys' (omega arith) (cc) in (cc (rest.0), rest.1)

length-copy : (n : ℕ) (b : ℤ → ℕ) (i : ℕ) → length (copy n b i) ≡ n
unfolding copy
length-copy zero b i = refl
length-copy (suc n) b i = ap suc (length-copy n b (i + 1))

-- The three parts of what the buffer holds.
parts :
    (b : ℤ → ℕ) (ys zs : List ℕ) (c : ℕ)
    → copy (length (ys ++ (zs ++ c ∷ []))) b 0 ≡ ys ++ (zs ++ c ∷ [])
    → (copy (length ys) b 0 ≡ ys) × (copy (length zs) b (length ys) ≡ zs)
parts b ys zs c h =
    let a = length ys in
    let l = length zs in
    let front =
      append-split (copy a b 0) ys (copy (l + 1) b (0 + a)) (zs ++ c ∷ []) (length-copy a b 0) (
        sym (copy-add a (l + 1) b 0)
        ∙ ap (λ k. copy k b 0)
            (omega (arith, length-append {0} ys (zs ++ c ∷ []), length-append {0} zs (c ∷ [])))
        ∙ h) in
    let back =
      append-split (copy l b (0 + a)) zs (copy 1 b (0 + a + l)) (c ∷ []) (length-copy l b (0 + a))
        (sym (copy-add l 1 b (0 + a)) ∙ front.1) in
    (front.0, ap (λ k. copy l b k) (omega arith) ∙ back.0)

-- A line that is longer than the caller's buffer is read from its end: the last byte, the null of
-- the enter key, is dropped, the `len` bytes before it are read, and those before them stay.
pub gets-long :
    (s : Input) (ys zs : List ℕ) (c len : ℕ)
    → Holds s (ys ++ (zs ++ c ∷ []))
    → s.ready ≡ pos 1
    → length zs ≡ len
    → (s' : Input) × (gets s len ≡ some (zs, s')) × Holds s' ys × (s'.ready ≡ pos 0)
gets-long s ys zs c len h r e =
    let a = length ys in
    let (front, back) = parts s.in_buffer ys zs c h.bytes in
    let size : length (ys ++ (zs ++ c ∷ [])) ≡ suc (a + len) =
      omega (arith, length-append {0} ys (zs ++ c ∷ []), length-append {0} zs (c ∷ [])) in
    let start : start_of s.buf_index len ≡ a =
      ap (λ i. start_of i len) (h.index ∙ ap last_index size)
      ∙ start_long (a + len) len (omega arith)
      ∙ omega arith in
    (
      Left s a,
      gets-eq s.in_buffer s.buf_index s.ready len a r start
          ∙ ap (λ t. some (t, Left s a)) (ap (λ k. copy k s.in_buffer a) (sym e) ∙ back),
      Left-Holds s a ys front refl,
      refl,
    )
