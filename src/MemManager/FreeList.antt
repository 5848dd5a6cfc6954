-- ===== src/MemManager/FreeList.antt =====
-- The free list of a `MemManager`: which chunk `get_chunk` takes out of it, and where `free` puts one.
use a_simple_microkernel.Prelude.{
  ℕ, ◌+◌, ◌%◌, ◌^◌, ◌<◌, ◌≡◌, refl, subst, sym, ◌∙◌, ◌≢◌, inl, inr, some, List, [], ◌∷◌, ◌++◌,
  arith, ltb, eq→==, ne→==, length, head_or, last_or, All, Bool-cases, ltb→lt,
}
use a_simple_microkernel.Store.{Ptr, null, Mem, load8, load32, store8, store32}
use a_simple_microkernel.Store.Laws.{
  Apart, load32-store8_ne, load8-store8_self, load32-store32_ne, load32-store32_self,
}
use a_simple_microkernel.Store.Chain.{
  before, since, before-append-since, Chain, Spaced, Same, walk-Chain, Chain-frame, Chain-suffix,
  Chain-unlink, Chain-insert, Chain-head_eq, Chain-head_lt, Chain-head_ne, Same-store32, Separate,
  Separate-Spaced, Separate-mid, Separate-unlink,
}
use a_simple_microkernel.MemManager.{
  MemManager, Allocated, bump, reuse, link, fits, get_chunk, free,
}

-- Rewriting the link and the flag of `t` touches no other chunk's link.
Same-header :
    (m : Mem) (t : Ptr) (v w : ℕ) (xs : List Ptr)
    → All (λ x. Apart t 9 x 9) xs
    → Same 4 m (store8 (store32 m (t + 4) v) (t + 8) w) xs
Same-header m t v w [] s = tt
Same-header m t v w (x ∷ xs) (s, ss) = (
  omega (
    arith,
    load32-store8_ne (store32 m (t + 4) v) (t + 8) w (x + 4) (omega arith),
    load32-store32_ne m (t + 4) v (x + 4) (omega arith),
  ),
  Same-header m t v w xs ss,
)

-- The list `ys ++ zs` is what is left of the free list when the chunk `t` is taken.
pub record Taken (a : MemManager) (ys : List Ptr) (t : Ptr) (zs : List Ptr) (r : Allocated)
    : Type 0 where
  pub place : r.0 ≡ (t + 81) % 2 ^ 32
  pub rest : Chain 4 r.2 r.1.free_list (ys ++ zs)
  pub separate : Separate 9 (ys ++ zs)
  pub taken : load8 r.2 (t + 8) ≡ 0
  pub end : r.1.last_p ≡ a.last_p

module _ (a : MemManager) (m : Mem) where
  reuse-Taken :
      (ys : List Ptr) (t : Ptr) (zs : List Ptr)
      → Chain 4 m a.free_list (ys ++ t ∷ zs)
      → Separate 9 (ys ++ t ∷ zs)
      → Taken a ys t zs (reuse a m (last_or null ys) t)
  unfolding reuse
  reuse-Taken [] t zs (e, ne, c) s = rw (eq→== t a.free_list (sym e)) (record {
    place = refl;
    rest =
        Chain-frame 4 m _ zs (load32 m (t + 4)) c
          (Same-header m t null 0 zs (Separate-mid 9 [] t zs s));
    separate = Separate-unlink 9 [] t zs s;
    taken = load8-store8_self _ (t + 8) 0;
    end = refl;
  })
  reuse-Taken (y ∷ ys) t zs c s =
      let spaced : Spaced 4 (y ∷ ys ++ t ∷ zs) =
        Separate-Spaced 9 4 (y ∷ ys ++ t ∷ zs) (omega arith) s in
      let ne : t ≢ a.free_list =
        λ e. Chain-head_ne 4 m y ys (t ∷ zs) a.free_list c spaced (e ∙ c.0) in
      rw (ne→== t a.free_list ne) (record {
        place = refl;
        rest =
            Chain-frame 4 (store32 m (last_or y ys + 4) (load32 m (t + 4))) _ (y ∷ ys ++ zs)
              a.free_list (Chain-unlink 4 m y ys t zs a.free_list c spaced)
              (Same-header _ t null 0 (y ∷ ys ++ zs) (Separate-mid 9 (y ∷ ys) t zs s));
        separate = Separate-unlink 9 (y ∷ ys) t zs s;
        taken = load8-store8_self _ (t + 8) 0;
        end = refl;
      })

  module _ (f n : ℕ) (xs : List Ptr) (c : Chain 4 m a.free_list xs) (enough : length xs < f) where
    -- When a chunk of the free list has the size that is asked for, `get_chunk` takes the first one
    -- of them, `t`, out of the list and keeps the others in order. It returns the address 81 bytes
    -- past `t`, the square of the size of a header and not the size.
    pub get_chunk-reuse :
        (t : Ptr) (zs : List Ptr)
        → Separate 9 xs
        → since (fits m n) xs ≡ t ∷ zs
        → (r : Allocated) × (get_chunk f a m n ≡ some r) × Taken a (before (fits m n) xs) t zs r
    unfolding get_chunk
    get_chunk-reuse t zs s e =
        let split : before (fits m n) xs ++ t ∷ zs ≡ xs =
          rw (← e) (before-append-since (fits m n) xs) in
        let c' = subst (Chain 4 m a.free_list) (sym split) c in
        let ne : t ≢ null = (Chain-suffix 4 m (before (fits m n) xs) (t ∷ zs) a.free_list c').1 in
        (
          reuse a m (last_or null (before (fits m n) xs)) t,
          rw (walk-Chain 4 (fits m n) f m null a.free_list xs c enough, e, ne→== t null ne),
          reuse-Taken (before (fits m n) xs) t zs c' (subst (Separate 9) (sym split) s),
        )

    -- When no chunk of the free list has the size that is asked for, `get_chunk` appends a new one.
    pub get_chunk-none_fits : since (fits m n) xs ≡ [] → get_chunk f a m n ≡ some (bump a m n)
    unfolding get_chunk
    get_chunk-none_fits e = rw (walk-Chain 4 (fits m n) f m null a.free_list xs c enough, e)

-- The addresses rise along the list.
abbrev pub Rising : List Ptr → Type 0
Rising [] = Unit
Rising (x ∷ xs) = All (λ y. x < y) xs × Rising xs

-- The free list `xs` with `p` put before the first greater address.
abbrev pub inserted : Ptr → List Ptr → List Ptr
inserted p xs = before (ltb p) xs ++ p ∷ since (ltb p) xs

All-inserted :
    (x p : Ptr) (xs : List Ptr) → x < p → All (λ y. x < y) xs → All (λ y. x < y) (inserted p xs)
unfolding before since
All-inserted x p [] h w = (h, tt)
All-inserted x p (y ∷ ys) h (w, ws) = elim (Bool-cases (ltb p y)) [
  | inl e ↦ rw e (h, (w, ws))
  | inr e ↦ rw e (w, All-inserted x p ys h ws)
]

All-lt_trans : (p y : Ptr) (xs : List Ptr) → p < y → All (λ z. y < z) xs → All (λ z. p < z) xs
All-lt_trans p y [] h w = tt
All-lt_trans p y (x ∷ xs) h (w, ws) = (omega arith, All-lt_trans p y xs h ws)

inserted-Rising :
    (p : Ptr) (xs : List Ptr) → All (λ x. Apart p 9 x 9) xs → Rising xs → Rising (inserted p xs)
unfolding before since
inserted-Rising p [] s r = (tt, tt)
inserted-Rising p (x ∷ xs) (s, ss) (w, r) = elim (Bool-cases (ltb p x)) [
  | inl e ↦ rw e ((ltb→lt p x e, All-lt_trans p x xs (ltb→lt p x e) w), (w, r))
  | inr e ↦ rw e (All-inserted x p xs (ground arith) w, inserted-Rising p xs ss r)
]

module _ (a : MemManager) (m : Mem) (p : Ptr) (ne : p ≢ null) (lt : p < 2 ^ 32)
    (lt' : a.free_list < 2 ^ 32) where
  abbrev Linked : List Ptr → MemManager × Mem → Type 0
  Linked xs (b, k) = Chain 4 k b.free_list xs × (b.last_p ≡ a.last_p)

  link-first :
      (prev temp : Ptr)
      → temp ≡ a.free_list
      → link a m p prev temp ≡ (record a { free_list = p }, store32 m (p + 4) a.free_list)
  unfolding link
  link-first prev temp e = rw (eq→== temp a.free_list e)

  link-later :
      (prev temp : Ptr)
      → temp ≢ a.free_list
      → link a m p prev temp ≡ (a, store32 (store32 m (prev + 4) p) (p + 4) temp)
  unfolding link
  link-later prev temp e = rw (ne→== temp a.free_list e)

  link-Chain :
      (ys zs : List Ptr)
      → Chain 4 m a.free_list (ys ++ zs)
      → Separate 9 (p ∷ ys ++ zs)
      → Linked (ys ++ p ∷ zs) (link a m p (last_or null ys) (head_or null zs))
  link-Chain [] zs c s =
      let away = (Separate-Spaced 9 4 (p ∷ zs) (omega arith) s).0 in
      let n = store32 m (p + 4) a.free_list in
      let back : load32 n (p + 4) ≡ a.free_list =
        omega (arith, load32-store32_self m (p + 4) a.free_list) in
      subst (Linked (p ∷ zs))
        (sym (link-first null (head_or null zs) (sym (Chain-head_eq 4 m zs a.free_list c))))
        (
          (
            refl,
            ne,
            rw back
                (Chain-frame 4 m n zs a.free_list c (Same-store32 4 m (p + 4) a.free_list zs away)),
          ),
          refl,
        )
  link-Chain (y ∷ ys) zs c s =
      let spaced = Separate-Spaced 9 4 (p ∷ y ∷ ys ++ zs) (omega arith) s in
      let other : head_or null zs ≢ a.free_list =
        λ e. Chain-head_ne 4 m y ys zs a.free_list c spaced.1 (e ∙ c.0) in
      subst (Linked (y ∷ ys ++ p ∷ zs)) (sym (link-later (last_or y ys) (head_or null zs) other)) (
        Chain-insert 4 m y ys p zs a.free_list c spaced ne lt
            (Chain-head_lt 4 m y ys zs a.free_list c),
        refl,
      )

  -- A freed chunk that is neither marked free nor the last one of the segment, going by the words at
  -- the pointer that `free` is given, is linked into the free list before the first chunk with a
  -- greater address and behind all others: the list is again well linked, its addresses still rise
  -- if they did, and the end of the last chunk does not move.
  pub free-Chain :
      (f : ℕ) (xs : List Ptr)
      → Chain 4 m a.free_list xs
      → Separate 9 (p ∷ xs)
      → Rising xs
      → length xs < f
      → load8 m (p + 8) ≡ 0
      → (p + load32 m p) % 2 ^ 32 ≢ a.last_p
      → (r : MemManager × Mem) × (free f a m p ≡ some r)
        × Chain 4 r.1 r.0.free_list (inserted p xs)
        × Rising (inserted p xs)
        × (r.0.last_p ≡ a.last_p)
  unfolding free
  free-Chain f xs c s r h taken notlast =
      let ys = before (ltb p) xs in
      let zs = since (ltb p) xs in
      let split : ys ++ zs ≡ xs = before-append-since (ltb p) xs in
      let l =
        link-Chain ys zs (subst (Chain 4 m a.free_list) (sym split) c)
          (subst (λ l. Separate 9 (p ∷ l)) (sym split) s) in
      (
        link a m p (last_or null ys) (head_or null zs),
        rw (
          eq→== (load8 m (p + 8)) 0 taken,
          ne→== _ a.last_p notlast,
          walk-Chain 4 (ltb p) f m null a.free_list xs c h,
        ),
        l.0,
        inserted-Rising p xs s.0 r,
        l.1,
      )
