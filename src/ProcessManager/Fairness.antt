-- ===== src/ProcessManager/Fairness.antt =====
-- Round-robin scheduling starves no process.
use a_simple_microkernel.Prelude.{
  ℕ, zero, suc, ◌≤◌, ◌<◌, ◌≡◌, ◌≢◌, refl, ap, sym, ◌∙◌, subst, ℤ, pos, negsuc, true, Option, some,
  arith, inl, ℕ_discrete, ◌>>=◌,
}
use a_simple_microkernel.Store.{Ptr}
use a_simple_microkernel.ProcessManager.{ProcessManager, is_ready, schedule}
use a_simple_microkernel.ProcessManager.Search.{IsIndex, origin, distance, around}
use a_simple_microkernel.ProcessManager.Table.{
  IsValid, saved, saved-is_ready, is_ready-true, is_ready_of,
}
use a_simple_microkernel.ProcessManager.Schedule.{Switched, schedule-Switched}

-- `n` calls of `schedule` in a row, each with a state to save from the process that it interrupts.
unfoldable pub rounds : ℕ → (ℕ → Ptr) → ProcessManager → Option ProcessManager
rounds zero states s = some s
rounds (suc n) states s =
    schedule 256 s (states 0) >>= λ (frame, s'). rounds n (λ i. states (suc i)) s'

rounds-zero : (states : ℕ → Ptr) (s : ProcessManager) → rounds 0 states s ≡ some s
unfolding rounds
rounds-zero states s = refl

rounds-step :
    (n : ℕ) (states : ℕ → Ptr) (s s' : ProcessManager) (r : Ptr × ProcessManager)
    → schedule 256 s (states 0) ≡ some r
    → rounds n (λ i. states (suc i)) r.1 ≡ some s'
    → rounds (suc n) states s ≡ some s'
unfolding rounds
rounds-step n states s s' r done rest = rw done rest

origin-lt : (i : ℤ) → IsIndex i → origin i < 256
origin-lt (pos i) h = h
origin-lt (negsuc n) h = omega arith

-- A switch that does not reach slot `k` comes nearer to it.
nearer :
    (r j k e : ℕ)
    → r < 256
    → k < 256
    → j ≡ around r e
    → e ≤ distance r k
    → j ≢ k
    → distance j k < distance r k
unfolding distance
nearer r j k e hr hk p le ne = omega arith

-- A ready process that is not chosen is ready still.
still_ready :
    (s : ProcessManager) (t : Ptr) (j e k : ℕ) (r : Ptr × ProcessManager)
    → IsValid s
    → Switched s (saved s.mem s.slots t s.current_index) j e r
    → k < 256
    → k ≢ j
    → is_ready s.mem s.slots k ≡ true
    → is_ready r.1.mem r.1.slots k ≡ true
still_ready s t j e k r v w lt ne h =
    let m1 = saved s.mem s.slots t s.current_index in
    let ready =
      saved-is_ready s.mem s.slots t s.current_index k v.objects v.index v.occupied lt (inl h) in
    let (occ, state) = is_ready-true m1 s.slots k ready in
    subst (λ slots. is_ready r.1.mem slots k ≡ true) (sym w.slots)
      (is_ready_of r.1.mem s.slots k occ (w.others k 20 lt occ ne (omega arith) ∙ state))

module _ (k : ℕ) (lt : k < 256) where
  reached :
      (b : ℕ) (states : ℕ → Ptr) (s : ProcessManager)
      → distance (origin s.current_index) k < b
      → IsValid s
      → s.num_of_processes ≢ 0
      → is_ready s.mem s.slots k ≡ true
      → (n : ℕ) × (s' : ProcessManager) × (n ≤ b)
        × (rounds n states s ≡ some s')
        × (s'.current_index ≡ pos k)
  reached zero states s near v some_left h = absurd (omega arith)
  reached (suc b) states s near v some_left h =
      let (r, j, e, done, w, v', le) = schedule-Switched s (states 0) v k some_left lt (inl h) in
      elim (ℕ_discrete j k) [
        | yes same ↦ (
          1,
          r.1,
          omega arith,
          rounds-step 0 states s r.1 r done (rounds-zero (λ i. states (suc i)) r.1),
          w.current ∙ ap pos same,
        )
        | no ne ↦
            let near' : distance (origin r.1.current_index) k < b = rw w.current (
              let closer =
                nearer (origin s.current_index) j k e (origin-lt s.current_index v.index) lt
                  w.first.place le ne in
              omega arith) in
            let (n, s', fuel, run, now) =
              reached b (λ i. states (suc i)) r.1 near' v' (rw w.number some_left)
                (still_ready s (states 0) j e k r v w lt (λ p. ne (sym p)) h) in
            (suc n, s', omega arith, rounds-step n states s s' r done run, now)
      ]

  -- A ready process of a valid table is put into execution by one of the next 256 calls of `schedule`,
  -- whatever states they are given to save, if nothing else happens between them.
  pub rounds-fair :
      (states : ℕ → Ptr) (s : ProcessManager)
      → IsValid s
      → s.num_of_processes ≢ 0
      → is_ready s.mem s.slots k ≡ true
      → (n : ℕ) × (s' : ProcessManager) × (n ≤ 256)
        × (rounds n states s ≡ some s')
        × (s'.current_index ≡ pos k)
  rounds-fair states s v some_left h =
      reached 256 states s (unfold distance in omega arith) v some_left h
