-- ===== src/Examples/Starting.antt =====
-- The programs of the init process on a system that counts, forks and prints.
use a_simple_microkernel.Prelude.{
  ℕ, ◌+◌, ◌-◌, ◌%◌, ◌≡◌, refl, Option, some, List, [], ◌∷◌, ◌==◌, if◌then◌else◌, arith,
}
use a_simple_microkernel.Screen.{Screen}
use a_simple_microkernel.Flavors.{
  Task, binary_search, linear_search, collatz_sequence, System, Progress, left, flavor1, flavor2,
  flavor3,
}
use a_simple_microkernel.Flavors.Jobs.{Reaps, Forks, Words, rounds}
use a_simple_microkernel.Flavors.Reports.{flavors-Reported}

-- The next number of a process, the forks up to the one that returns in the child, the tasks started,
-- and the screen.
record World : Type 0 where
  next : ℕ
  parents : ℕ
  started : List Task
  screen : Screen

abbrev small : System World
small = record {
  fork = λ place w. some (
      if w.parents == 0
      then (0, w)
      else (w.next % 256, record w { next = w.next + 1; parents = w.parents - 1 }));
  execve = λ task argv w. some (record w { started = task ∷ w.started });
  waitpid = λ pid status w. some (w.next % 256, w);
  get_processes = λ w. w;
  show = λ f w. record w { screen = f w.screen };
}

small-Words : Words small
small-Words = record {
  fork_word = λ place w w' pid e. ground arith;
  waitpid_word = λ pid status w w' sender e. ground arith;
}

-- A process that is the parent at its first fork and the child at its second one.
abbrev second : World
second = record {
  next = 1;
  parents = 1;
  started = [];
  screen = record { video = λ i. 0; row = 0; column = 0; half = 0 };
}

flavors-Reported_example :
    Forks small
      (λ w o. Reaps small 4 (small.get_processes w) o)
      ((0, binary_search) ∷ (1, linear_search) ∷ (2, collatz_sequence) ∷ [])
      second
      (flavor1 small 4 second)
    × Forks small
        (Reaps small 4)
        (rounds 10 ((0, binary_search) ∷ []))
        second
        (flavor2 small 4 second)
    × Forks small
        (Reaps small 4)
        (rounds 3 ((0, binary_search) ∷ (1, linear_search) ∷ []))
        second
        (flavor3 small 4 second)
flavors-Reported_example = flavors-Reported small small-Words 4 second

abbrev started_by : Option (Progress World) → List Task
started_by (some (left w)) = w.started
started_by o = []

second_starts : started_by (flavor1 small 4 second) ≡ linear_search ∷ []
unfolding flavor1
second_starts = refl
