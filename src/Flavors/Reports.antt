-- ===== src/Flavors/Reports.antt =====
-- The programs of src/flavor1.cpp, src/flavor2.cpp and src/flavor3.cpp against their jobs.
use a_simple_microkernel.Prelude.{
  ℕ, zero, suc, ◌≡◌, refl, subst, Option, none, some, List, [], ◌∷◌, ◌++◌, ne→==, ℕ_discrete, ◌>>=◌,
  ◌⊎◌, inl, inr,
}
use mathlib.Core.List.{append_assoc, append-nil}
use a_simple_microkernel.Store.{null}
use a_simple_microkernel.Process.{terminated}
use a_simple_microkernel.Screen.{printf}
use a_simple_microkernel.Flavors.{
  Task, binary_search, linear_search, collatz_sequence, System, Progress, going, left, then_do,
  times, spawn, reap, flavor1, flavor2, flavor3,
}
use a_simple_microkernel.Flavors.Jobs.{
  Job, report, farewell, rounds, Reaps, over, stuck, nobody, ended, Forks, all, no_fork, no_start,
  child, parent, Words,
}
use a_simple_microkernel.Flavors.Lines.{signed, signed-IsSigned, line-report, line-farewell}

Option-cases {ℓ} : {A : Type ℓ} (o : Option A) → (o ≡ none) ⊎ ((a : A) × (o ≡ some a))
Option-cases none = inl refl
Option-cases (some a) = inr (a, refl)

then_do_assoc :
    {W : Type 0} (o : Option (Progress W)) (f g : W → Option (Progress W))
    → ((o >>= then_do f) >>= then_do g) ≡ (o >>= then_do (λ w. f w >>= then_do g))
unfolding then_do
then_do_assoc none f g = refl
then_do_assoc (some (going w)) f g = refl
then_do_assoc (some (left w)) f g = refl

module _ {W : Type 0} (os : System W) (words : Words os) where
  reap-Reaps :
      (n : ℕ) (w : W) (next : W → Option (Progress W))
      → ((w' : W) → Reaps os n w' (next w'))
      → Reaps os (suc n) w (reap os w >>= then_do next)
  unfolding reap then_do
  reap-Reaps n w next go = elim (Option-cases (os.waitpid 65535 terminated w)) [
    | inl e ↦ rw e (stuck e)
    | inr ((v, w1), e) ↦ elim (ℕ_discrete v 65535) [
      | yes z ↦
          let e' = subst (λ k. os.waitpid 65535 terminated w ≡ some (k, w1)) z e in
          rw e' (nobody e' (go w1))
      | no ne ↦
          let lt = words.waitpid_word 65535 terminated w w1 v e in
          rw (e, ne→== v 65535 ne, line-farewell v lt)
            (ended e ne (signed-IsSigned v lt)
              (go (os.show (λ s. printf s (farewell (signed v))) w1)))
    ]
  ]

  times-Reaps : (n : ℕ) (w : W) → Reaps os n w (times n (reap os) w)
  unfolding times
  times-Reaps zero w = over
  times-Reaps (suc n) w = reap-Reaps n w (times n (reap os)) (times-Reaps n)

  module _ (Last : W → Option (Progress W) → Type 0) where
    -- The program `o`, with anything behind it that does the jobs `us`, does the jobs `js` first.
    abbrev Does : (W → Option (Progress W)) → List Job → Type 0
    Does part js =
        (us : List Job) (next : W → Option (Progress W))
        → ((w : W) → Forks os Last us w (next w))
        → (w : W) → Forks os Last (js ++ us) w (part w >>= then_do next)

    spawn-Does : (place : ℕ) (task : Task) → Does (spawn os place task) ((place, task) ∷ [])
    unfolding spawn then_do
    spawn-Does place task us next go w = elim (Option-cases (os.fork place w)) [
      | inl e ↦ rw e (no_fork e)
      | inr ((v, w1), e) ↦ elim (ℕ_discrete v 0) [
        | yes z ↦
            let e' = subst (λ k. os.fork place w ≡ some (k, w1)) z e in
            elim (Option-cases (os.execve task null w1)) [
              | inl x ↦ rw (e', x) (no_start e' x)
              | inr (w2, x) ↦ rw (e', x) (child e' x)
            ]
        | no ne ↦
            let lt = words.fork_word place w w1 v e in
            rw (e, ne→== v 0 ne, line-report task v lt)
              (parent e ne (signed-IsSigned v lt)
                (go (os.show (λ s. printf s (report task (signed v))) w1)))
      ]
    ]

    then-Does :
        (part rest : W → Option (Progress W)) (js ks : List Job)
        → Does part js
        → Does rest ks
        → Does (λ w. part w >>= then_do rest) (js ++ ks)
    then-Does part rest js ks first second us next go w =
        rw (append_assoc, then_do_assoc)
          (first (ks ++ us) (λ w'. rest w' >>= then_do next) (second us next go) w)

    times-Does :
        (n : ℕ) (part : W → Option (Progress W)) (js : List Job)
        → Does part js
        → Does (times n part) (rounds n js)
    unfolding times rounds then_do
    times-Does zero part js each = λ us next go w. go w
    times-Does (suc n) part js each =
        then-Does part (times n part) js (rounds n js) each (times-Does n part js each)

    -- Behind the last job.
    Does-all :
        (part next : W → Option (Progress W)) (js : List Job)
        → Does part js
        → ((w : W) → Last w (next w))
        → (w : W) → Forks os Last js w (part w >>= then_do next)
    Does-all part next js does last w = rw (← append-nil js) (does [] next (λ w'. all (last w')) w)

  -- Whatever its system calls return, as long as their results have 16 bits, each program of the
  -- init process does its jobs in order: the first a binary search, a linear search and a Collatz
  -- sequence, the second ten binary searches, the third a binary and a linear search three times.
  -- For each job it forks. A child starts the task of its job, with a null argument, and nothing
  -- else. The parent prints the line on the child, with the child's number in decimal notation, and
  -- goes on. Behind the last job, and in the first program the printing of the process table, it
  -- waits for the end of any child, in each of the `n` rounds of the last loop that are looked at,
  -- and prints a line with the number of each child that has ended. A process whose `fork`,
  -- `execve` or `waitpid` does not return gets no further.
  pub flavors-Reported :
      (n : ℕ) (w : W)
      → Forks os
          (λ w' o. Reaps os n (os.get_processes w') o)
          ((0, binary_search) ∷ (1, linear_search) ∷ (2, collatz_sequence) ∷ [])
          w
          (flavor1 os n w)
        × Forks os (Reaps os n) (rounds 10 ((0, binary_search) ∷ [])) w (flavor2 os n w)
        × Forks os
            (Reaps os n)
            (rounds 3 ((0, binary_search) ∷ (1, linear_search) ∷ []))
            w
            (flavor3 os n w)
  unfolding flavor1 flavor2 flavor3
  flavors-Reported n w =
      let listing : W → Option (Progress W) → Type 0 = λ w' o. Reaps os n (os.get_processes w') o in
      (
        spawn-Does listing 0 binary_search ((1, linear_search) ∷ (2, collatz_sequence) ∷ []) _
            (spawn-Does listing 1 linear_search ((2, collatz_sequence) ∷ []) _ (
              spawn-Does listing 2 collatz_sequence [] _
                (λ w'. all (times-Reaps n (os.get_processes w')))))
            w,
        Does-all (Reaps os n) (times 10 (spawn os 0 binary_search)) (times n (reap os))
            (rounds 10 ((0, binary_search) ∷ []))
            (times-Does (Reaps os n) 10 (spawn os 0 binary_search) ((0, binary_search) ∷ [])
              (spawn-Does (Reaps os n) 0 binary_search))
            (times-Reaps n) w,
        Does-all (Reaps os n)
            (times 3 (λ w1. spawn os 0 binary_search w1 >>= then_do (spawn os 1 linear_search)))
            (times n (reap os)) (rounds 3 ((0, binary_search) ∷ (1, linear_search) ∷ []))
            (times-Does (Reaps os n) 3 _ ((0, binary_search) ∷ (1, linear_search) ∷ []) (
              then-Does (Reaps os n) (spawn os 0 binary_search) (spawn os 1 linear_search)
                ((0, binary_search) ∷ []) ((1, linear_search) ∷ [])
                (spawn-Does (Reaps os n) 0 binary_search)
                (spawn-Does (Reaps os n) 1 linear_search)))
            (times-Reaps n) w,
      )
