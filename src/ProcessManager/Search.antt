-- ===== src/ProcessManager/Search.antt =====
-- The round-robin search of `ProcessManager::schedule`.
use a_simple_microkernel.Prelude.{
  ℕ, zero, suc, ◌+◌, ◌-◌, ◌%◌, ◌≤◌, ◌<◌, ◌≡◌, refl, ◌∙◌, ℤ, pos, negsuc, true, false, none, some,
  arith, if◌then◌else◌, Bool-cases, inl, inr,
}
use a_simple_microkernel.Store.{Ptr, Mem}
use a_simple_microkernel.ProcessManager.{next_index, is_ready, find_ready}

-- The slot before the first one that the search looks at: -1 stands before slot 0, as 255 does.
abbrev pub origin : ℤ → ℕ
origin (pos i) = i
origin (negsuc n) = 255

-- The index is -1 or a slot.
abbrev pub IsIndex : ℤ → Type 0
IsIndex (pos i) = i < 256
IsIndex (negsuc n) = n ≡ 0

-- The slot `d` steps behind the one after `r`, going round.
abbrev pub around : ℕ → ℕ → ℕ
around r d = (r + 1 + d) % 256

-- How many slots the search passes over between `r` and `k`.
unfoldable pub distance : ℕ → ℕ → ℕ
distance r k = (k + 255 - r) % 256

module _ (m : Mem) (slots : ℕ → Ptr) where
  -- Slot `j` is the first ready one behind `r`, going round, with `d` slots between.
  pub record FirstReady (r j d : ℕ) : Type 0 where
    pub place : j ≡ around r d
    pub ready : is_ready m slots j ≡ true
    pub skipped : (e : ℕ) → e < d → is_ready m slots (around r e) ≡ false

  next_lem : (i : ℤ) → IsIndex i → next_index i ≡ some (around (origin i) 0)
  unfolding next_index
  next_lem (pos i) h = ground arith
  next_lem (negsuc zero) h = refl
  next_lem (negsuc (suc n)) h = absurd (omega arith)

  find-step :
      (f : ℕ) (i : ℤ)
      → IsIndex i
      → find_ready (suc f) m slots i ≡ (
          let j = around (origin i) 0 in
          if is_ready m slots j then some j else find_ready f m slots (pos j))
  unfolding find_ready
  find-step f i h = rw (next_lem i h)

  shift : (r d : ℕ) → around (around r 0) d ≡ around r (suc d)
  shift r d = omega arith

  skipped-suc :
      (r j e : ℕ)
      → is_ready m slots (around r 0) ≡ false
      → FirstReady (around r 0) j e
      → (e' : ℕ) → e' < suc e
      → is_ready m slots (around r e') ≡ false
  skipped-suc r j e miss p zero h = miss
  skipped-suc r j e miss p (suc e') h = rw (← shift r e') (p.skipped e' (omega arith))

  -- With a ready slot `d` steps away and more than `d` rounds of fuel, the search finds the first
  -- ready slot, which is at most as far.
  pub find_ready-FirstReady :
      (d f : ℕ) (i : ℤ)
      → IsIndex i
      → d < f
      → is_ready m slots (around (origin i) d) ≡ true
      → (j e : ℕ) × (find_ready f m slots i ≡ some j) × FirstReady (origin i) j e × (e ≤ d)
  find_ready-FirstReady d zero i h lt r = absurd (omega arith)
  find_ready-FirstReady zero (suc f) i h lt r = (
    around (origin i) 0,
    0,
    rw (find-step f i h, r),
    record { place = refl; ready = r; skipped = λ e h. absurd (omega arith) },
    omega arith,
  )
  find_ready-FirstReady (suc d) (suc f) i h lt r =
      elim (Bool-cases (is_ready m slots (around (origin i) 0))) [
        | inl hit ↦ (
          around (origin i) 0,
          0,
          rw (find-step f i h, hit),
          record { place = refl; ready = hit; skipped = λ e h. absurd (omega arith) },
          omega arith,
        )
        | inr miss ↦
            let (j, e, found, p, le) =
              find_ready-FirstReady d f (pos (around (origin i) 0)) (omega arith) (omega arith)
                (rw (shift (origin i) d) r) in
            (
              j,
              suc e,
              rw (find-step f i h, miss) found,
              record {
                place = p.place ∙ shift (origin i) e;
                ready = p.ready;
                skipped = skipped-suc (origin i) j e miss p;
              },
              omega arith,
            )
      ]

  -- The search from `i` when slot `k` is ready: 256 rounds find the first ready slot going round.
  pub find_ready_lem :
      (i : ℤ) (k : ℕ)
      → IsIndex i
      → k < 256
      → is_ready m slots k ≡ true
      → (j e : ℕ) × (find_ready 256 m slots i ≡ some j)
        × FirstReady (origin i) j e
        × (e ≤ distance (origin i) k)
  unfolding distance
  find_ready_lem i k h lt r =
      find_ready-FirstReady ((k + 255 - origin i) % 256) 256 i h (omega arith) (rw (back i h) r)
    where
      back : (i : ℤ) → IsIndex i → around (origin i) ((k + 255 - origin i) % 256) ≡ k
      back (pos i) h = omega arith
      back (negsuc n) h = omega arith

  -- When no slot is ready the search never ends.
  pub find_ready-none :
      (f : ℕ) (i : ℤ)
      → IsIndex i
      → ((k : ℕ) → k < 256 → is_ready m slots k ≡ false)
      → find_ready f m slots i ≡ none
  unfolding find_ready
  find_ready-none zero i h all = refl
  find_ready-none (suc f) i h all =
      rw (next_lem i h, all (around (origin i) 0) (omega arith))
        (find_ready-none f (pos (around (origin i) 0)) (omega arith) all)
