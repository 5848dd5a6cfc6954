-- ===== src/Kernel.antt =====
-- The system calls: src/kernel.cpp. The frame that `esp` points at holds the registers of the process.
pub mod Calls
pub mod Exit
pub mod Forks
pub mod Waitpid
use a_simple_microkernel.Prelude.{
  ℕ, ◌+◌, ◌-◌, ◌%◌, ◌^◌, ℤ, pos, negsuc, Option, none, some, ◌==◌, if◌then◌else◌, ◌>>=◌,
}
use a_simple_microkernel.Store.{Ptr, null, Mem, load8, load32, store32}
use a_simple_microkernel.MemManager.{MemManager, get_chunk, free}
use a_simple_microkernel.Process.{get_pid, get_stack_size, rec_msg}
use a_simple_microkernel.ProcessManager
use a_simple_microkernel.ProcessManager.{ProcessManager, print_processes}
use a_simple_microkernel.Lifecycle.{term_proc, fork_proc, execve_proc, get_current_process}

-- The managers of the processes and of the stack segment. The memory is the process manager's.
pub record Kernel : Type 0 where
  pub process_manager : ProcessManager
  pub ss_manager : MemManager

abbrev pub with_mem : Kernel → Mem → Kernel
with_mem k m = record k { process_manager = record k.process_manager { mem = m } }

unfoldable pub get_current_pid : Kernel → Option ℕ
get_current_pid k = get_current_process k.process_manager >>= λ current.
    some (get_pid k.process_manager.mem current)

-- `Kernel::get_processes` prints the table.
unfoldable pub get_processes : Kernel → Kernel
get_processes k = record k {
  process_manager = record k.process_manager { screen = print_processes k.process_manager };
}

-- `Kernel::schedule`, which the drivers call.
unfoldable pub schedule : ℕ → Kernel → Ptr → Option (Ptr × Kernel)
schedule fuel k esp = ProcessManager.schedule fuel k.process_manager esp >>= λ (frame, s).
    some (frame, record k { process_manager = s })

unfoldable pub sys_exit : ℕ → Kernel → Ptr → Option (Ptr × Kernel)
sys_exit fuel k cpu = get_current_process k.process_manager >>= λ current.
    term_proc fuel k.process_manager (get_pid k.process_manager.mem current) >>= λ (old_stack, s).
    free fuel k.ss_manager s.mem old_stack >>= λ (ss, m).
    ProcessManager.schedule fuel (record s { mem = m; current_index = negsuc 0 }) cpu
    >>= λ (frame, s'). some (frame, record { process_manager = s'; ss_manager = ss })

unfoldable pub sys_fork : ℕ → Kernel → Ptr → Option Kernel
sys_fork fuel k cpu = get_current_process k.process_manager >>= λ current.
    let size = get_stack_size k.process_manager.mem current in
    get_chunk fuel k.ss_manager k.process_manager.mem size >>= λ (chunk, ss, m).
    let new_stack = (chunk + get_stack_size m current + 2 ^ 32 - 1) % 2 ^ 32 in
    fork_proc fuel (record k.process_manager { mem = m }) new_stack (load32 m (cpu + 8)) cpu current
    >>= λ (pid, s). some (record {
      process_manager = record s { mem = store32 s.mem (cpu + 4) pid };
      ss_manager = ss;
    })

unfoldable pub sys_waitpid : ℕ → Kernel → Ptr → Option Kernel
sys_waitpid fuel k cpu =
    let s = k.process_manager in
    get_current_process s >>= λ current.
    rec_msg fuel s.mem current (load32 s.mem (cpu + 8)) (load32 s.mem (cpu + 4) % 2 ^ 16)
    >>= λ (msg, m).
        if msg == null
        then some (with_mem k (store32 m (cpu + 12) (2 ^ 32 - 1)))
        else (free fuel s.process_mem_manager m msg >>= λ (a, m'). some (record k {
          process_manager = record s {
            process_mem_manager = a;
            mem = store32 m' (cpu + 12) (load8 m (msg + 4));
          };
        }))

unfoldable pub sys_execve : Kernel → Ptr → Option (Ptr × Kernel)
sys_execve k cpu =
    let m = k.process_manager.mem in
    get_current_process k.process_manager >>= λ current.
    let (frame, s) =
      execve_proc k.process_manager current (load32 m (cpu + 8)) (load32 m (cpu + 4)) in
    some (frame, record k { process_manager = s })

-- `Kernel::handle_interrupt`, by the number in eax.
unfoldable pub handle_interrupt : ℕ → Kernel → Ptr → Option (Ptr × Kernel)
handle_interrupt fuel k esp =
    let eax = load32 k.process_manager.mem esp in
    if eax == 1
    then sys_exit fuel k esp
    else if eax == 2
    then (sys_fork fuel k esp >>= λ k'. some (esp, k'))
    else if eax == 7
    then (sys_waitpid fuel k esp >>= λ k'. some (esp, k'))
    else if eax == 11
    then sys_execve k esp
    else some (esp, k)
