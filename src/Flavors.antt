-- ===== src/Flavors.antt =====
-- The programs of the init process: src/flavor1.cpp, src/flavor2.cpp and src/flavor3.cpp, over the
-- system calls.
pub mod Jobs
pub mod Lines
pub mod Reports
use a_simple_microkernel.Prelude.{
  ℕ, zero, suc, ◌+◌, ◌-◌, ◌^◌, Option, some, List, ltb, ◌==◌, if◌then◌else◌, ◌>>=◌, codes,
}
use a_simple_microkernel.Store.{Ptr, null}
use a_simple_microkernel.Screen.{Screen, printf, printf_int}
use a_simple_microkernel.Process.{terminated}

pub data Task : Type 0 where
  binary_search linear_search collatz_sequence : Task

-- The calls, and printing, of a process in a world `W`. `fork` is given the number of the place that
-- calls it and returns twice, in two processes; `execve` starts a task.
pub record System (W : Type 0) : Type 0 where
  pub fork : (place : ℕ) → W → Option (ℕ × W)
  pub execve : Task → Ptr → W → Option W
  pub waitpid : (pid status : ℕ) → W → Option (ℕ × W)
  pub get_processes : W → W
  pub show : (Screen → Screen) → W → W

-- A process goes on with its program, or has left it for a task.
pub data Progress (W : Type 0) : Type 0 where
  going left : W → Progress W

-- An `int16_t` as the `int32_t` that `printf_int` is given.
unfoldable pub extended : ℕ → ℕ
extended v = if ltb v (2 ^ 15) then v else v + (2 ^ 32 - 2 ^ 16)

unfoldable pub name : Task → List ℕ
name binary_search = codes "Binary search forked with pid "
name linear_search = codes "Linear search forked with pid "
name collatz_sequence = codes "Collatz Sequence forked with pid "

-- A line with a number.
unfoldable pub line : List ℕ → (pid : ℕ) → Screen → Screen
line text pid s = printf (printf_int (printf s text) (extended pid)) (codes "\n")

module _ {W : Type 0} where
  -- The second part of a program, in a process that is still in it.
  unfoldable pub then_do : (W → Option (Progress W)) → Progress W → Option (Progress W)
  then_do next (going w) = next w
  then_do next (left w) = some (left w)

  -- `n` rounds of a loop.
  unfoldable pub times : ℕ → (W → Option (Progress W)) → W → Option (Progress W)
  unfolding then_do
  times zero body w = some (going w)
  times (suc n) body w = body w >>= then_do (times n body)

module _ {W : Type 0} (os : System W) where
  -- `if((pid = Kernel::fork()) == 0) Kernel::execve(task, nullptr); else …`
  unfoldable pub spawn : (place : ℕ) → Task → W → Option (Progress W)
  spawn place task w = os.fork place w >>= λ (pid, w').
      if pid == 0
      then (os.execve task null w' >>= λ w''. some (left w''))
      else some (going (os.show (line (name task) pid) w'))

  -- A round of the last loop of every program. -1 is 65535.
  unfoldable pub reap : W → Option (Progress W)
  reap w = os.waitpid 65535 terminated w >>= λ (pid, w'). some (
      going (if pid == 65535 then w' else os.show (line (codes "Process exited with pid ") pid) w'))

  -- The programs, with `n` rounds of the last loop.
  unfoldable pub flavor1 : ℕ → W → Option (Progress W)
  unfolding spawn reap times then_do
  flavor1 n w =
      spawn 0 binary_search w
      >>= then_do (λ w1.
        spawn 1 linear_search w1
        >>= then_do (λ w2.
          spawn 2 collatz_sequence w2 >>= then_do (λ w3. times n reap (os.get_processes w3))))

  unfoldable pub flavor2 : ℕ → W → Option (Progress W)
  unfolding spawn reap times then_do
  flavor2 n w = times 10 (spawn 0 binary_search) w >>= then_do (times n reap)

  unfoldable pub flavor3 : ℕ → W → Option (Progress W)
  unfolding spawn reap times then_do
  flavor3 n w =
      times 3 (λ w1. spawn 0 binary_search w1 >>= then_do (spawn 1 linear_search)) w
      >>= then_do (times n reap)
