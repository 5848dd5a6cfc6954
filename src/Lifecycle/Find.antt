-- ===== src/Lifecycle/Find.antt =====
-- The search of `term_proc` for the slot of a process.
use a_simple_microkernel.Prelude.{
  ℕ, zero, suc, ◌+◌, ◌≤◌, ◌<◌, ◌≡◌, ◌≢◌, refl, some, arith, ℕ_discrete, ne→==, eq→==, ◌∙◌,
}
use a_simple_microkernel.Store.{Ptr, null, Mem, load8}
use a_simple_microkernel.Lifecycle.{find_process}

module _ (m : Mem) (slots : ℕ → Ptr) (pid : ℕ) where
  find_process-here :
      (n i : ℕ)
      → slots i ≢ null
      → load8 m (slots i + 12) ≡ pid
      → find_process (suc n) m slots pid i ≡ some i
  unfolding find_process
  find_process-here n i occ e =
      rw (ne→== (slots i) 0 occ, eq→== (load8 m (slots i + 12)) pid e) refl

  find_process-past :
      (n i : ℕ)
      → (slots i ≢ null → load8 m (slots i + 12) ≢ pid)
      → find_process (suc n) m slots pid i ≡ find_process n m slots pid (i + 1)
  unfolding find_process
  find_process-past n i away = elim (ℕ_discrete (slots i) 0) [
    | yes z ↦ rw (eq→== (slots i) 0 z) refl
    | no occ ↦ rw (ne→== (slots i) 0 occ, ne→== (load8 m (slots i + 12)) pid (away occ)) refl
  ]

  find_process-from :
      (n i index : ℕ)
      → i ≤ index
      → index < i + n
      → slots index ≢ null
      → load8 m (slots index + 12) ≡ pid
      → ((j : ℕ) → j < index → slots j ≢ null → load8 m (slots j + 12) ≢ pid)
      → find_process n m slots pid i ≡ some index
  find_process-from zero i index le lt occ e first = absurd (omega arith)
  find_process-from (suc n) i index le lt occ e first = elim (ℕ_discrete i index) [
    | yes same ↦ rw same (find_process-here n index occ e)
    | no ne ↦
        find_process-past n i (first i (omega arith))
        ∙ find_process-from n (i + 1) index (omega arith) (omega arith) occ e first
  ]

  -- The search finds the first slot whose process has the number.
  pub find_process-first :
      (index : ℕ)
      → index < 256
      → slots index ≢ null
      → load8 m (slots index + 12) ≡ pid
      → ((j : ℕ) → j < index → slots j ≢ null → load8 m (slots j + 12) ≢ pid)
      → find_process 256 m slots pid 0 ≡ some index
  find_process-first index lt occ e first =
      find_process-from 256 0 index (omega arith) (omega arith) occ e first
