-- ===== src/Flavors/Jobs.antt =====
-- What the programs of src/flavor1.cpp, src/flavor2.cpp and src/flavor3.cpp are to do, as the tasks that
-- they start and the texts that they print.
use a_simple_microkernel.Prelude.{
  ℕ, zero, suc, ◌-◌, ◌^◌, ◌≤◌, ◌<◌, ◌≡◌, ◌≢◌, Option, none, some, List, [], ◌∷◌, ◌++◌, codes, ◌⊎◌,
}
use a_simple_microkernel.Store.{null}
use a_simple_microkernel.Process.{terminated}
use a_simple_microkernel.Screen.{printf}
use a_simple_microkernel.Screen.Signed.{IsDecimal}
use a_simple_microkernel.Flavors.{
  Task, binary_search, linear_search, collatz_sequence, System, Progress, going, left,
}

-- The text is the decimal notation of the number that the 16-bit pattern stands for.
abbrev pub IsSigned : List ℕ → ℕ → Type 0
IsSigned text v =
    ((v < 2 ^ 15) × IsDecimal text v)
    ⊎ ((2 ^ 15 ≤ v) × ((number : List ℕ) × (text ≡ b'-' ∷ number) × IsDecimal number (2 ^ 16 - v)))

-- The line on a child that runs the task, whose number has this text.
unfoldable pub report : Task → List ℕ → List ℕ
report binary_search text = codes "Binary search forked with pid " ++ (text ++ codes "\n")
report linear_search text = codes "Linear search forked with pid " ++ (text ++ codes "\n")
report collatz_sequence text = codes "Collatz Sequence forked with pid " ++ (text ++ codes "\n")

unfoldable pub farewell : List ℕ → List ℕ
farewell text = codes "Process exited with pid " ++ (text ++ codes "\n")

-- The jobs of `n` rounds.
unfoldable pub rounds {ℓ} : {A : Type ℓ} → ℕ → List A → List A
rounds zero js = []
rounds (suc n) js = js ++ rounds n js

-- A place that forks, and the task that its child is to run.
abbrev pub Job : Type 0
Job = ℕ × Task

module _ {W : Type 0} (os : System W) where
  -- `n` rounds of waiting: what the process gets to, when it waits for the end of any child, and
  -- prints a line for each that has ended. -1 is 65535.
  pub data Reaps : ℕ → W → Option (Progress W) → Type 0 where
    over : {w : W} → Reaps zero w (some (going w))
    stuck : {n : ℕ} {w : W} → os.waitpid 65535 terminated w ≡ none → Reaps (suc n) w none
    nobody :
        {n : ℕ} {w w1 : W} {o : Option (Progress W)}
        → os.waitpid 65535 terminated w ≡ some (65535, w1)
        → Reaps n w1 o
        → Reaps (suc n) w o
    ended :
        {n pid : ℕ} {text : List ℕ} {w w1 : W} {o : Option (Progress W)}
        → os.waitpid 65535 terminated w ≡ some (pid, w1)
        → pid ≢ 65535
        → IsSigned text pid
        → Reaps n (os.show (λ s. printf s (farewell text)) w1) o
        → Reaps (suc n) w o

  -- The process forks for each job. In a child it starts the task of that job, with a null argument,
  -- and nothing else; in the parent it prints the child's line and takes up the next job. Behind the
  -- last one it does what `Last` says.
  pub data Forks (Last : W → Option (Progress W) → Type 0)
      : List Job → W → Option (Progress W) → Type 0 where
    all : {w : W} {o : Option (Progress W)} → Last w o → Forks Last [] w o
    no_fork :
        {place : ℕ} {task : Task} {js : List Job} {w : W}
        → os.fork place w ≡ none
        → Forks Last ((place, task) ∷ js) w none
    no_start :
        {place : ℕ} {task : Task} {js : List Job} {w w1 : W}
        → os.fork place w ≡ some (0, w1)
        → os.execve task null w1 ≡ none
        → Forks Last ((place, task) ∷ js) w none
    child :
        {place : ℕ} {task : Task} {js : List Job} {w w1 w2 : W}
        → os.fork place w ≡ some (0, w1)
        → os.execve task null w1 ≡ some w2
        → Forks Last ((place, task) ∷ js) w (some (left w2))
    parent :
        {place pid : ℕ} {task : Task} {text : List ℕ} {js : List Job} {w w1 : W}
        {o : Option (Progress W)}
        → os.fork place w ≡ some (pid, w1)
        → pid ≢ 0
        → IsSigned text pid
        → Forks Last js (os.show (λ s. printf s (report task text)) w1) o
        → Forks Last ((place, task) ∷ js) w o

-- The results of `fork` and `waitpid` are of 16 bits, as their types say.
pub record Words {W : Type 0} (os : System W) : Type 0 where
  pub fork_word : (place : ℕ) (w w' : W) (pid : ℕ) → os.fork place w ≡ some (pid, w') → pid < 2 ^ 16
  pub waitpid_word :
      (pid status : ℕ) (w w' : W) (sender : ℕ)
      → os.waitpid pid status w ≡ some (sender, w')
      → sender < 2 ^ 16
