-- ===== src/ProcessManager/Table.antt =====
-- What the process table and the entries in memory have to do with one another.
use a_simple_microkernel.Prelude.{
  ℕ, ◌+◌, ◌^◌, ◌≤◌, ◌<◌, ◌≡◌, ◌≢◌, refl, subst, sym, ◌∙◌, ap, ℤ, pos, negsuc, true, some, arith,
  lt→ltb, ◌⊎◌, inl, inr, ℕ_discrete, ne→==,
}
use a_simple_microkernel.Store.{Ptr, null, Mem, load32, store32}
use a_simple_microkernel.Store.Laws.{Apart, load32-store32_self, load32-store32_ne}
use a_simple_microkernel.ProcessManager.{ProcessManager, is_ready, save_current}
use a_simple_microkernel.ProcessManager.Search.{IsIndex}

-- The entries of two slots are different objects.
abbrev pub Objects : (ℕ → Ptr) → Type 0
Objects slots =
    (i j : ℕ)
    → i < 256
    → j < 256
    → i ≢ j
    → slots i ≢ null
    → slots j ≢ null
    → Apart (slots i) 44 (slots j) 44

-- The process that is said to be in execution has an entry.
abbrev pub Occupied : (ℕ → Ptr) → ℤ → Type 0
Occupied slots (pos i) = slots i ≢ null
Occupied slots (negsuc n) = Unit {0}

-- The scheduler's part of the invariant. Only the process in execution is marked as running.
pub record IsValid (s : ProcessManager) : Type 0 where
  pub index : IsIndex s.current_index
  pub occupied : Occupied s.slots s.current_index
  pub objects : Objects s.slots
  pub sole :
      (i : ℕ)
      → i < 256
      → s.slots i ≢ null
      → load32 s.mem (s.slots i + 20) ≡ 0
      → s.current_index ≡ pos i

pub is_ready-true :
    (m : Mem) (slots : ℕ → Ptr) (k : ℕ)
    → is_ready m slots k ≡ true
    → (slots k ≢ null) × (load32 m (slots k + 20) ≡ 1)
unfolding is_ready
is_ready-true m slots k h = ground arith

pub is_ready_of :
    (m : Mem) (slots : ℕ → Ptr) (k : ℕ)
    → slots k ≢ null
    → load32 m (slots k + 20) ≡ 1
    → is_ready m slots k ≡ true
unfolding is_ready
is_ready_of m slots k h e = rw (ne→== (slots k) 0 h, e)

module _ (m : Mem) (slots : ℕ → Ptr) (t : Ptr) where
  -- The memory once the process in execution is saved.
  abbrev pub saved : ℤ → Mem
  saved (negsuc n) = m
  saved (pos i) = store32 (store32 m (slots i) t) (slots i + 20) 1

  pub save_current-saved : (i : ℤ) → IsIndex i → save_current m slots i t ≡ some (saved i)
  unfolding save_current
  save_current-saved (negsuc n) h = refl
  save_current-saved (pos i) h = rw (lt→ltb i 256 h)

  pub saved_self : (i : ℕ) → load32 (saved (pos i)) (slots i + 20) ≡ 1
  saved_self i = load32-store32_self (store32 m (slots i) t) (slots i + 20) 1

  pub saved-frame : (i : ℕ) → t < 2 ^ 32 → load32 (saved (pos i)) (slots i) ≡ t
  saved-frame i h = omega (
    arith,
    load32-store32_ne (store32 m (slots i) t) (slots i + 20) 1 (slots i) (omega arith),
    load32-store32_self m (slots i) t,
  )

  -- The entries of the other processes are not written.
  pub saved-other :
      (i : ℤ) (k off : ℕ)
      → Objects slots
      → IsIndex i
      → Occupied slots i
      → i ≢ pos k
      → k < 256
      → slots k ≢ null
      → off + 4 ≤ 44
      → load32 (saved i) (slots k + off) ≡ load32 m (slots k + off)
  saved-other (negsuc n) k off o h c ne lt occ fit = refl
  saved-other (pos i) k off o h c ne lt occ fit =
      let apart = o i k h lt (λ e. ne (ap pos e)) c occ in
      omega (
        arith,
        load32-store32_ne (store32 m (slots i) t) (slots i + 20) 1 (slots k + off) (omega arith),
        load32-store32_ne m (slots i) t (slots k + off) (omega arith),
      )

  -- After the save a process is ready if it was before, or if it was in execution.
  pub saved-is_ready :
      (i : ℤ) (k : ℕ)
      → Objects slots
      → IsIndex i
      → Occupied slots i
      → k < 256
      → (is_ready m slots k ≡ true) ⊎ (i ≡ pos k)
      → is_ready (saved i) slots k ≡ true
  saved-is_ready (negsuc n) k o h c lt (inl r) = r
  saved-is_ready (negsuc n) k o h c lt (inr e) = cc
  saved-is_ready (pos i) k o h c lt (inr e) =
      let same : i ≡ k = cc in rw (← same) (is_ready_of (saved (pos i)) slots i c (saved_self i))
  saved-is_ready (pos i) k o h c lt (inl r) = elim (ℕ_discrete i k) [
    | yes e ↦ rw (← e) (is_ready_of (saved (pos i)) slots i c (saved_self i))
    | no ne ↦
        let (occ, state) = is_ready-true m slots k r in
        is_ready_of (saved (pos i)) slots k occ
          (saved-other (pos i) k 20 o h c (λ e. ne (cc)) lt occ (omega arith) ∙ state)
  ]

  -- What is marked running after the save was marked so before, and was not in execution.
  pub saved-running :
      (i : ℤ) (k : ℕ)
      → Objects slots
      → IsIndex i
      → Occupied slots i
      → k < 256
      → slots k ≢ null
      → load32 (saved i) (slots k + 20) ≡ 0
      → (load32 m (slots k + 20) ≡ 0) × (i ≢ pos k)
  saved-running (negsuc n) k o h c lt occ e = (e, λ p. cc)
  saved-running (pos i) k o h c lt occ e = elim (ℕ_discrete i k) [
    | yes p ↦ absurd (
        let stale = subst (λ x. load32 (saved (pos i)) (slots x + 20) ≡ 0) (sym p) e in
        omega (arith, saved_self i))
    | no ne ↦
        let other : pos i ≢ pos k = λ p. ne (cc) in
        (sym (saved-other (pos i) k 20 o h c other lt occ (omega arith)) ∙ e, other)
  ]
