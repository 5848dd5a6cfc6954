-- ===== src/Store/Chain.antt =====
-- Lists linked through memory: the free list of the allocator, the message queue of a process and
-- the children of a process are walked by loops of one shape,
--   for(cur = head, prev = nullptr; cur != nullptr; prev = cur, cur = cur->next) if(test) break;
-- and changed by writing one link. `off` is the offset of the link in a node.
use a_simple_microkernel.Prelude.{
  ℕ, zero, suc, ◌+◌, ◌≤◌, ◌^◌, ◌<◌, ◌≡◌, refl, ◌≢◌, Bool, Option, none, some, List, [], ◌∷◌, ◌++◌,
  arith, ◌==◌, ne→==, inl, inr, if◌then◌else◌, Bool-cases, length, head_or, last_or, All,
}
use a_simple_microkernel.Store.{Ptr, null, Mem, load32, store32}
use a_simple_microkernel.Store.Laws.{Apart, load32-store32_ne, load32-store32_self, load32-lt}

-- The nodes before the first one that passes the test, and those from it on.
unfoldable pub before : (Ptr → Bool) → List Ptr → List Ptr
before test [] = []
before test (x ∷ xs) = if test x then [] else x ∷ before test xs

unfoldable pub since : (Ptr → Bool) → List Ptr → List Ptr
since test [] = []
since test (x ∷ xs) = if test x then x ∷ xs else since test xs

pub before-append-since : (test : Ptr → Bool) (xs : List Ptr) → before test xs ++ since test xs ≡ xs
unfolding before since
before-append-since test [] = refl
before-append-since test (x ∷ xs) = ground (arith, before-append-since test xs)

-- The nodes of `y ∷ ys` but the last.
abbrev pub init : Ptr → List Ptr → List Ptr
init y [] = []
init y (z ∷ zs) = y ∷ init z zs

module _ (off : ℕ) where
  -- The loop: where it stops, with the node before. `none` means that the fuel ran out.
  unfoldable pub walk : (Ptr → Bool) → ℕ → Mem → Ptr → Ptr → Option (Ptr × Ptr)
  walk test zero m prev cur = none
  walk test (suc f) m prev cur =
      let rest = walk test f m cur (load32 m (cur + off)) in
      if cur == null then some (prev, cur) else if test cur then some (prev, cur) else rest

  -- From `p` the links lead through the nodes `xs` to the null pointer.
  abbrev pub Chain : Mem → Ptr → List Ptr → Type 0
  Chain m p [] = p ≡ null
  Chain m p (x ∷ xs) = (p ≡ x) × (x ≢ null) × Chain m (load32 m (x + off)) xs

  -- The four bytes at `a` are no node's link.
  abbrev pub Away : Ptr → List Ptr → Type 0
  Away a xs = All (λ x. Apart (x + off) 4 a 4) xs

  -- No two nodes' links share a byte.
  abbrev pub Spaced : List Ptr → Type 0
  Spaced [] = Unit
  Spaced (x ∷ xs) = Away (x + off) xs × Spaced xs

  abbrev pub Same : Mem → Mem → List Ptr → Type 0
  Same m n xs = All (λ x. load32 n (x + off) ≡ load32 m (x + off)) xs

  pub walk-Chain :
      (test : Ptr → Bool) (f : ℕ) (m : Mem) (prev cur : Ptr) (xs : List Ptr)
      → Chain m cur xs
      → length xs < f
      → walk test f m prev cur ≡ some (last_or prev (before test xs), head_or null (since test xs))
  unfolding walk before since
  walk-Chain test zero m prev cur xs c h = absurd (omega arith)
  walk-Chain test (suc f) m prev cur [] c h = rw c
  walk-Chain test (suc f) m prev cur (x ∷ xs) (e, ne, c) h =
      rw (e, ne→== x 0 ne)
        (elim (Bool-cases (test x)) [
          | inl hit ↦ rw hit
          | inr miss ↦ rw (miss, walk-Chain test f m x (load32 m (x + off)) xs c (omega arith))
        ])

  pub Chain-frame :
      (m n : Mem) (xs : List Ptr) (p : Ptr) → Chain m p xs → Same m n xs → Chain n p xs
  Chain-frame m n [] p c s = c
  Chain-frame m n (x ∷ xs) p (e, ne, c) (s, ss) =
      (e, ne, rw s (Chain-frame m n xs (load32 m (x + off)) c ss))

  pub Same-store32 :
      (m : Mem) (a : Ptr) (v : ℕ) (xs : List Ptr) → Away a xs → Same m (store32 m a v) xs
  Same-store32 m a v [] w = tt
  Same-store32 m a v (x ∷ xs) (w, ws) =
      (load32-store32_ne m a v (x + off) w, Same-store32 m a v xs ws)

  pub Same-trans : (m n k : Mem) (xs : List Ptr) → Same m n xs → Same n k xs → Same m k xs
  Same-trans m n k [] s t = tt
  Same-trans m n k (x ∷ xs) (s, ss) (t, ts) = (rw (t, s), Same-trans m n k xs ss ts)

  -- The part of a chain behind a prefix.
  pub Chain-suffix :
      (m : Mem) (ys zs : List Ptr) (p : Ptr) → Chain m p (ys ++ zs) → Chain m (head_or null zs) zs
  Chain-suffix m [] [] p c = refl
  Chain-suffix m [] (z ∷ zs) p (e, ne, c) = (refl, ne, c)
  Chain-suffix m (y ∷ ys) zs p (e, ne, c) = Chain-suffix m ys zs (load32 m (y + off)) c

  -- A chain whose prefix keeps its links but the last, which now leads to another chain.
  pub Chain-relink :
      (m n : Mem) (q y : Ptr) (ys zs ws : List Ptr) (p : Ptr)
      → Chain m p (y ∷ ys ++ zs)
      → Same m n (init y ys)
      → load32 n (last_or y ys + off) ≡ q
      → Chain n q ws
      → Chain n p (y ∷ ys ++ ws)
  Chain-relink m n q y [] zs ws p (e, ne, c) s l w = (e, ne, rw l w)
  Chain-relink m n q y (z ∷ ys) zs ws p (e, ne, c) (s, ss) l w =
      (e, ne, rw s (Chain-relink m n q z ys zs ws (load32 m (y + off)) c ss l w))

  Away-last :
      (y z : Ptr) (ys zs : List Ptr)
      → Away (y + off) (z ∷ ys ++ zs)
      → Apart (y + off) 4 (last_or z ys + off) 4
  Away-last y z [] zs (a, rest) = omega arith
  Away-last y z (w ∷ ys) zs (a, rest) = Away-last y w ys zs rest

  pub Spaced-init :
      (y : Ptr) (ys zs : List Ptr) → Spaced (y ∷ ys ++ zs) → Away (last_or y ys + off) (init y ys)
  Spaced-init y [] zs s = tt
  Spaced-init y (z ∷ ys) zs (a, s) = (Away-last y z ys zs a, Spaced-init z ys zs s)

  Away-suffix : (a : Ptr) (ys zs : List Ptr) → Away a (ys ++ zs) → Away a zs
  Away-suffix a [] zs w = w
  Away-suffix a (y ∷ ys) zs (w, ws) = Away-suffix a ys zs ws

  pub Spaced-suffix :
      (y : Ptr) (ys zs : List Ptr) → Spaced (y ∷ ys ++ zs) → Away (last_or y ys + off) zs
  Spaced-suffix y [] zs (a, s) = a
  Spaced-suffix y (z ∷ ys) zs (a, s) = Spaced-suffix z ys zs s

  -- What is away from all links is away from the last link of a prefix.
  pub Away-at :
      (a y : Ptr) (ys zs : List Ptr) → Away a (y ∷ ys ++ zs) → Apart a 4 (last_or y ys + off) 4
  Away-at a y [] zs (w, ws) = omega arith
  Away-at a y (z ∷ ys) zs (w, ws) = Away-at a z ys zs ws

  pub Spaced-unlink :
      (ys : List Ptr) (t : Ptr) (zs : List Ptr) → Spaced (ys ++ t ∷ zs) → Spaced (ys ++ zs)
  Spaced-unlink [] t zs (a, s) = s
  Spaced-unlink (y ∷ ys) t zs (a, s) = (drop_mid ys a, Spaced-unlink ys t zs s)
    where
      drop_mid : (ys : List Ptr) → Away (y + off) (ys ++ t ∷ zs) → Away (y + off) (ys ++ zs)
      drop_mid [] (w, ws) = ws
      drop_mid (x ∷ ys) (w, ws) = (w, drop_mid ys ws)

  -- Writing the link of the node before `t` takes `t` out of the chain.
  pub Chain-unlink :
      (m : Mem) (y : Ptr) (ys : List Ptr) (t : Ptr) (zs : List Ptr) (p : Ptr)
      → Chain m p (y ∷ ys ++ t ∷ zs)
      → Spaced (y ∷ ys ++ t ∷ zs)
      → Chain (store32 m (last_or y ys + off) (load32 m (t + off))) p (y ∷ ys ++ zs)
  Chain-unlink m y ys t zs p c s =
      Chain-relink m n q y ys (t ∷ zs) zs p c
        (Same-store32 m a q (init y ys) (Spaced-init y ys (t ∷ zs) s))
        (omega (arith, load32-store32_self m a q, load32-lt m (t + off)))
        (Chain-frame m n zs q (Chain-suffix m (y ∷ ys) (t ∷ zs) p c).2
          (Same-store32 m a q zs (Spaced-suffix y ys (t ∷ zs) s).1))
    where
      q : Ptr
      q = load32 m (t + off)

      a : Ptr
      a = last_or y ys + off

      n : Mem
      n = store32 m a q

  Away-init : (a y : Ptr) (ys zs : List Ptr) → Away a (y ∷ ys ++ zs) → Away a (init y ys)
  Away-init a y [] zs w = tt
  Away-init a y (z ∷ ys) zs (w, ws) = (w, Away-init a z ys zs ws)

  -- Two writes put `t` into the chain behind `y ∷ ys`.
  pub Chain-insert :
      (m : Mem) (y : Ptr) (ys : List Ptr) (t : Ptr) (zs : List Ptr) (p : Ptr)
      → Chain m p (y ∷ ys ++ zs)
      → Spaced (t ∷ y ∷ ys ++ zs)
      → t ≢ null
      → t < 2 ^ 32
      → head_or null zs < 2 ^ 32
      → Chain
          (store32 (store32 m (last_or y ys + off) t) (t + off) (head_or null zs))
          p
          (y ∷ ys ++ t ∷ zs)
  Chain-insert m y ys t zs p c (away, s) ne lt lt' =
      Chain-relink m n t y ys zs (t ∷ zs) p c
        (Same-trans m k n (init y ys) (Same-store32 m a t (init y ys) (Spaced-init y ys zs s))
          (Same-store32 k b h (init y ys) (Away-init b y ys zs away)))
        (omega (arith, load32-store32_ne k b h a apart, load32-store32_self m a t))
        (
          refl,
          ne,
          rw links (
              Chain-frame m n zs h (Chain-suffix m (y ∷ ys) zs p c) (
                Same-trans m k n zs (Same-store32 m a t zs (Spaced-suffix y ys zs s))
                  (Same-store32 k b h zs (Away-suffix b (y ∷ ys) zs away)))),
        )
    where
      a : Ptr
      a = last_or y ys + off

      b : Ptr
      b = t + off

      h : Ptr
      h = head_or null zs

      k : Mem
      k = store32 m a t

      n : Mem
      n = store32 k b h

      apart : Apart a 4 b 4
      apart = let other = Away-last t y ys zs away in omega arith

      links : load32 n b ≡ h
      links = omega (arith, load32-store32_self k b h)

  -- Behind a node of a chain stands another node or the null pointer.
  pub Chain-head_ne :
      (m : Mem) (y : Ptr) (ys zs : List Ptr) (p : Ptr)
      → Chain m p (y ∷ ys ++ zs)
      → Spaced (y ∷ ys ++ zs)
      → head_or null zs ≢ y
  Chain-head_ne m y ys [] p (e, ne, c) s = λ h. ne (rw h)
  Chain-head_ne m y ys (z ∷ zs) p c (away, s) =
      let apart : Apart (z + off) 4 (y + off) 4 = (Away-suffix (y + off) ys (z ∷ zs) away).0 in
      omega arith

  pub Chain-head_eq : (m : Mem) (xs : List Ptr) (p : Ptr) → Chain m p xs → p ≡ head_or null xs
  Chain-head_eq m [] p c = c
  Chain-head_eq m (x ∷ xs) p (e, ne, c) = e

  pub Chain-head_lt :
      (m : Mem) (y : Ptr) (ys zs : List Ptr) (p : Ptr)
      → Chain m p (y ∷ ys ++ zs)
      → head_or null zs < 2 ^ 32
  Chain-head_lt m y [] zs p (e, ne, c) =
      omega (arith, Chain-head_eq m zs (load32 m (y + off)) c, load32-lt m (y + off))
  Chain-head_lt m y (z ∷ ys) zs p (e, ne, c) = Chain-head_lt m z ys zs (load32 m (y + off)) c

-- Objects of `n` bytes at distinct places.
abbrev pub Separate : ℕ → List Ptr → Type 0
Separate n [] = Unit
Separate n (x ∷ xs) = All (λ y. Apart x n y n) xs × Separate n xs

All-Away :
    (n off x : ℕ) (xs : List Ptr)
    → off + 4 ≤ n
    → All (λ y. Apart x n y n) xs
    → Away off (x + off) xs
All-Away n off x [] h w = tt
All-Away n off x (y ∷ ys) h (w, ws) = (omega arith, All-Away n off x ys h ws)

pub Separate-Spaced : (n off : ℕ) (xs : List Ptr) → off + 4 ≤ n → Separate n xs → Spaced off xs
Separate-Spaced n off [] h s = tt
Separate-Spaced n off (x ∷ xs) h (w, s) = (All-Away n off x xs h w, Separate-Spaced n off xs h s)

-- The object in the middle is apart from all the others.
pub Separate-mid :
    (n : ℕ) (ys : List Ptr) (t : Ptr) (zs : List Ptr)
    → Separate n (ys ++ t ∷ zs)
    → All (λ y. Apart t n y n) (ys ++ zs)
Separate-mid n [] t zs (w, s) = w
Separate-mid n (y ∷ ys) t zs (w, s) = (turn (mid ys w), Separate-mid n ys t zs s)
  where
    mid : (ys : List Ptr) → All (λ x. Apart y n x n) (ys ++ t ∷ zs) → Apart y n t n
    mid [] (w, ws) = w
    mid (x ∷ ys) (w, ws) = mid ys ws

    turn : Apart y n t n → Apart t n y n
    turn h = omega arith

pub Separate-unlink :
    (n : ℕ) (ys : List Ptr) (t : Ptr) (zs : List Ptr)
    → Separate n (ys ++ t ∷ zs)
    → Separate n (ys ++ zs)
Separate-unlink n [] t zs (w, s) = s
Separate-unlink n (y ∷ ys) t zs (w, s) = (drop_mid ys w, Separate-unlink n ys t zs s)
  where
    drop_mid :
        (ys : List Ptr)
        → All (λ x. Apart y n x n) (ys ++ t ∷ zs)
        → All (λ x. Apart y n x n) (ys ++ zs)
    drop_mid [] (w, ws) = ws
    drop_mid (x ∷ ys) (w, ws) = (w, drop_mid ys ws)
