-- ===== src/MemManager/Requests.antt =====
-- Sequences of requests to a `MemManager` whose free list is empty, with their outcomes.
use a_simple_microkernel.Prelude.{
  ℕ, suc, ◌+◌, ◌^◌, ◌≤◌, ◌<◌, ◌≡◌, refl, ap, subst, sym, ◌∙◌, ◌≢◌, inl, inr, some, List, [], ◌∷◌,
  arith, All,
}
use mathlib.Core.Option.{some-injective}
use a_simple_microkernel.Store.{Ptr, null, Mem}
use a_simple_microkernel.Store.Laws.{Apart}
use a_simple_microkernel.MemManager.{MemManager, get_base, get_limit, bump, get_chunk}
use a_simple_microkernel.MemManager.Bump.{IsValid, Granted, get_chunk-bump, bump_cases}

-- The requests granted so far, the newest first, each with its size.
pub data Requests (f : ℕ) (a : MemManager) (m : Mem)
    : MemManager → Mem → List (Ptr × ℕ) → Type 0 where
  start : Requests f a m a m []
  granted :
      {b c : MemManager} {k j : Mem} {rs : List (Ptr × ℕ)} (n p : ℕ)
      → Requests f a m b k rs
      → b.last_p + n + 9 < 2 ^ 32
      → get_chunk (suc f) b k n ≡ some (p, c, j)
      → p ≢ null
      → Requests f a m c j ((p, n) ∷ rs)
  refused :
      {b c : MemManager} {k j : Mem} {rs : List (Ptr × ℕ)} (n : ℕ)
      → Requests f a m b k rs
      → b.last_p + n + 9 < 2 ^ 32
      → get_chunk (suc f) b k n ≡ some (null, c, j)
      → Requests f a m c j rs

-- The chunk lies in the segment, behind its base and before the address `e`.
abbrev pub Within : MemManager → ℕ → Ptr × ℕ → Type 0
Within a e (p, n) = (get_base a.segment_sl ≤ p) × (p + n ≤ e)

abbrev pub Disjoint : List (Ptr × ℕ) → Type 0
Disjoint [] = Unit
Disjoint ((p, n) ∷ rs) = All (λ (q, k). Apart p n q k) rs × Disjoint rs

record Inv (a b : MemManager) (rs : List (Ptr × ℕ)) : Type 0 where
  valid : IsValid b
  empty : b.free_list ≡ null
  segment : b.segment_sl ≡ a.segment_sl
  within : All (Within a b.last_p) rs
  disjoint : Disjoint rs

All-Within-mono :
    (a : MemManager) (e e' : ℕ) (rs : List (Ptr × ℕ))
    → e ≤ e'
    → All (Within a e) rs
    → All (Within a e') rs
All-Within-mono a e e' [] h w = tt
All-Within-mono a e e' ((q, k) ∷ rs) h (w, ws) =
    ((w.0, omega arith), All-Within-mono a e e' rs h ws)

All-Apart :
    (a : MemManager) (e p n : ℕ) (rs : List (Ptr × ℕ))
    → e ≤ p
    → All (Within a e) rs
    → All (λ (q, k). Apart p n q k) rs
All-Apart a e p n [] h w = tt
All-Apart a e p n ((q, k) ∷ rs) h (w, ws) = (omega arith, All-Apart a e p n rs h ws)

module _ (a b : MemManager) (k : Mem) (n : ℕ) (c : MemManager) (j : Mem) (rs : List (Ptr × ℕ))
    (i : Inv a b rs) (lt : b.last_p + n + 9 < 2 ^ 32) where
  -- `bump` at the request, when the free list is empty.
  bump-eq : (f p : ℕ) → get_chunk (suc f) b k n ≡ some (p, c, j) → bump b k n ≡ (p, c, j)
  bump-eq f p h = some-injective _ _ (sym (get_chunk-bump f b k n i.empty) ∙ h)

  granted-Inv : (p : Ptr) → p ≢ null → bump b k n ≡ (p, c, j) → Inv a c ((p, n) ∷ rs)
  granted-Inv p ne e = elim (bump_cases b k n i.valid lt) [
    | inl e' ↦ absurd (ne (ap (λ r. r.0) (sym e ∙ e')))
    | inr (g, v) ↦
        let g' : Granted b k n (p, c, j) = subst (Granted b k n) e g in
        let base : get_base b.segment_sl ≤ b.last_p = i.valid.above in
        record {
          valid = subst (λ r. IsValid r.1) e v;
          empty = g'.list ∙ i.empty;
          segment = g'.segment ∙ i.segment;
          within = (
            (rw (← i.segment) (omega arith), omega arith),
            All-Within-mono a b.last_p c.last_p rs (omega arith) i.within,
          );
          disjoint = (All-Apart a b.last_p p n rs (omega arith) i.within, i.disjoint);
        }
  ]

  refused-Inv : bump b k n ≡ (null, c, j) → Inv a c rs
  refused-Inv e = elim (bump_cases b k n i.valid lt) [
    | inl e' ↦ rw (sym (ap (λ r. r.1) (sym e ∙ e'))) at i
    | inr (g, v) ↦ absurd (let z = subst (Granted b k n) e g in omega arith)
  ]

module _ (f : ℕ) (a : MemManager) (m : Mem) where
  Requests-Inv :
      {b : MemManager} {k : Mem} {rs : List (Ptr × ℕ)}
      → IsValid a
      → a.free_list ≡ null
      → Requests f a m b k rs
      → Inv a b rs
  Requests-Inv v e start = record {
    valid = v;
    empty = e;
    segment = refl;
    within = tt;
    disjoint = tt;
  }
  Requests-Inv v e (granted {b} {c} {k} {j} {rs} n p r lt h ne) =
      let i = Requests-Inv v e r in
      granted-Inv a b k n c j rs i lt p ne (bump-eq a b k n c j rs i lt f p h)
  Requests-Inv v e (refused {b} {c} {k} {j} {rs} n r lt h) =
      let i = Requests-Inv v e r in
      refused-Inv a b k n c j rs i lt (bump-eq a b k n c j rs i lt f null h)

  -- However many requests are made of a valid manager with an empty free list, each small enough
  -- for its end to be a 32-bit address, the chunks granted lie in the segment, no two of them share
  -- a byte, and the manager stays valid.
  pub Requests-Disjoint :
      {b : MemManager} {k : Mem} {rs : List (Ptr × ℕ)}
      → IsValid a
      → a.free_list ≡ null
      → Requests f a m b k rs
      → All (Within a (get_limit a.segment_sl)) rs × Disjoint rs × IsValid b
  Requests-Disjoint {b} {rs} v e r =
      let i = Requests-Inv v e r in
      (
        All-Within-mono a b.last_p (get_limit a.segment_sl) rs (rw (← i.segment) i.valid.below)
            i.within,
        i.disjoint,
        i.valid,
      )
