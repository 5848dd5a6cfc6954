-- ===== src/ProcessManager.antt =====
-- The process table and its round-robin scheduler: src/multitasking/processmanager.cpp and
-- include/multitasking/processmanager.h. `none` is a loop that ran out of fuel or an access outside
-- the table.
pub mod Add
pub mod Search
pub mod Schedule
pub mod Fairness
pub mod Table
use a_simple_microkernel.Prelude.{
  ℕ, zero, suc, ◌+◌, ◌-◌, ◌%◌, ◌^◌, ℤ, pos, negsuc, Bool, not, ◌&&◌, Option, none, some, ltb, leb,
  ◌==◌, if◌then◌else◌, ◌>>=◌, codes,
}
use a_simple_microkernel.Store.{Ptr, null, Mem, load8, load32, store8, store32}
use a_simple_microkernel.Screen.{Screen, printf, printf_int}
use a_simple_microkernel.MemManager
use a_simple_microkernel.MemManager.{MemManager}
use a_simple_microkernel.Gdt.{get_pss}
use a_simple_microkernel.Process.{ready, running, blocked}

-- The fields of the manager, the memory with the process entries, and the screen that it prints to.
-- `slots i` is `processes[i]`, for an `i` below 256.
pub record ProcessManager : Type 0 where
  pub slots : ℕ → Ptr
  pub num_of_processes : ℕ
  pub current_index : ℤ
  pub last_pid : ℕ
  pub process_mem_manager : MemManager
  pub mem : Mem
  pub screen : Screen

-- The constructor. Its entry in the table of interrupt handlers is made by the base class.
unfoldable pub new : Mem → Screen → ProcessManager
new mem screen = record {
  slots = λ i. null;
  num_of_processes = 0;
  current_index = negsuc 0;
  last_pid = 2 ^ 32 - 1;
  process_mem_manager = MemManager.new get_pss;
  mem = mem;
  screen = screen;
}

unfoldable pub set_slot : (ℕ → Ptr) → ℕ → Ptr → ℕ → Ptr
set_slot slots i p j = if j == i then p else slots j

-- The loop of `add_proc`: the first empty slot from `i` on, with `n` slots left. The recursive call
-- waits for the test.
unfoldable pub find_slot : ℕ → (ℕ → Ptr) → ℕ → ℕ
find_slot zero slots i = i
find_slot (suc n) slots i =
    let rest = find_slot n slots (i + 1) in if slots i == null then i else rest

-- The part of `add_proc` behind the search. The `uint8_t` that a refusal returns as -1 is 255.
unfoldable pub add_proc : ProcessManager → Ptr → Option (ℕ × ProcessManager)
add_proc s t_process =
    if leb 256 s.num_of_processes
    then some (255, s)
    else (let index = find_slot 256 s.slots 0 in
        let last_pid = (s.last_pid + 1) % 2 ^ 32 in
        let m = store32 (store8 s.mem (t_process + 12) last_pid) (t_process + 20) ready in
        if ltb index 256
        then some (
          load8 m (t_process + 12),
          record s {
            slots = set_slot s.slots index t_process;
            last_pid = last_pid;
            num_of_processes = (s.num_of_processes + 1) % 2 ^ 16;
            mem = m;
          },
        )
        else none)

-- The body of the loop of `print_processes` at the process `p`.
unfoldable pub print_process : Screen → Mem → Ptr → Screen
print_process screen m p =
    let screen =
      printf (printf_int (printf screen (codes "process pid: ")) (load8 m (p + 12)))
        (codes ", state: ") in
    let state = load32 m (p + 20) in
    let screen = printf screen (
      if state == ready
      then codes "READY"
      else if state == running
      then codes "RUNNING"
      else if state == blocked
      then codes "BLOCKED"
      else codes "UNKNOWN") in
    printf screen (codes "\n")

-- The loop, with `n` slots left from `i` on: it ends before the last slot, 255.
unfoldable pub print_slots : ℕ → Screen → Mem → (ℕ → Ptr) → ℕ → Screen
print_slots zero screen m slots i = screen
print_slots (suc n) screen m slots i =
    print_slots n (if slots i == null then screen else print_process screen m (slots i)) m slots
      (i + 1)

unfoldable pub print_processes : ProcessManager → Screen
print_processes s = print_slots 255 (printf s.screen (codes "process table:\n")) s.mem s.slots 0

-- The body of the do-while loop of `schedule`: the next index. `none` is an index that is negative
-- still, which the loop's test would take outside the table.
unfoldable pub next_index : ℤ → Option ℕ
next_index (pos i) = some (if leb 256 (i + 1) then (i + 1) % 256 else i + 1)
next_index (negsuc zero) = some 0
next_index (negsuc (suc n)) = none

-- The loop goes on while the slot is empty or its process is not ready.
unfoldable pub is_ready : Mem → (ℕ → Ptr) → ℕ → Bool
is_ready m slots i = not (slots i == null) && (load32 m (slots i + 20) == ready)

unfoldable pub find_ready : ℕ → Mem → (ℕ → Ptr) → ℤ → Option ℕ
unfolding next_index is_ready
find_ready zero m slots i = none
find_ready (suc f) m slots i = next_index i >>= λ j.
    let rest = find_ready f m slots (pos j) in if is_ready m slots j then some j else rest

-- The process in execution is made ready, with its state saved.
unfoldable pub save_current : Mem → (ℕ → Ptr) → ℤ → Ptr → Option Mem
save_current m slots (negsuc n) t_cpu_state = some m
save_current m slots (pos i) t_cpu_state =
    if ltb i 256
    then some (store32 (store32 m (slots i) t_cpu_state) (slots i + 20) ready)
    else none

unfoldable pub schedule : ℕ → ProcessManager → Ptr → Option (Ptr × ProcessManager)
schedule fuel s t_cpu_state =
    if s.num_of_processes == 0
    then some (t_cpu_state, s)
    else (save_current s.mem s.slots s.current_index t_cpu_state >>= λ m.
        find_ready fuel m s.slots s.current_index >>= λ j.
        let s' = record s { mem = store32 m (s.slots j + 20) running; current_index = pos j } in
        some (load32 s'.mem (s.slots j), record s' { screen = print_processes s' }))

-- The handler of the timer, whose call of `schedule` is commented out.
unfoldable pub handle_interrupt : ProcessManager → Ptr → Ptr × ProcessManager
handle_interrupt s esp = (esp, s)
