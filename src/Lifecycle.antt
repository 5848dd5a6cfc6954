-- ===== src/Lifecycle.antt =====
-- The operations of src/multitasking/processmanager.cpp that end processes and start new ones from
-- old ones: `term_proc`, `fork_proc` and `execve_proc`. `none` is a loop that ran out of fuel.
pub mod Adopt
pub mod Child
pub mod Copy
pub mod Execve
pub mod Find
pub mod Fork
pub mod Leave
pub mod Linked
pub mod Family
pub mod Tell
pub mod Term
pub mod Forking
use a_simple_microkernel.Prelude.{
  ℕ, zero, suc, ◌+◌, ◌-◌, ◌%◌, ◌^◌, ℤ, pos, negsuc, not, ◌&&◌, Option, none, some, List, [], ◌∷◌,
  ltb, leb, ◌==◌, if◌then◌else◌, ◌>>=◌,
}
use a_simple_microkernel.Store.{Ptr, null, Mem, load8, load32, store8, store32}
use a_simple_microkernel.Store.Chain.{walk}
use a_simple_microkernel.MemManager.{MemManager, get_chunk, free}
use a_simple_microkernel.Gdt.{get_css, get_dss, get_sss}
use a_simple_microkernel.Process.{
  ready, terminated, store_fields, sizeof_process, sizeof_message, sizeof_cpu_state, sig_to_parent,
}
use a_simple_microkernel.ProcessManager.{ProcessManager, set_slot, add_proc}

-- The search of `term_proc`, with `n` slots left from `i` on.
unfoldable pub find_process : ℕ → Mem → (ℕ → Ptr) → ℕ → ℕ → Option ℕ
find_process zero m slots t_pid i = none
find_process (suc n) m slots t_pid i =
    let rest = find_process n m slots t_pid (i + 1) in
    if not (slots i == null) && (load8 m (slots i + 12) == t_pid) then some i else rest

-- The loop that hands the children from `child` on over to the init process `root`.
unfoldable pub adopt : ℕ → Mem → (root child : Ptr) → Option Mem
adopt zero m root child = none
adopt (suc fuel) m root child =
    let m1 = store32 m (child + 24) (load32 m (root + 28)) in
    let m2 = store32 m1 (root + 28) child in
    let m3 = store8 m2 (root + 32) (load8 m2 (root + 32) + 1) in
    let rest = adopt fuel m3 root (load32 m (child + 24)) in if child == null then some m else rest

-- The removal from the children of the parent.
unfoldable pub leave : ℕ → Mem → (target : Ptr) → Option Mem
leave fuel m target =
    let parent = load32 m (target + 16) in
    let m1 =
      if load32 m (parent + 28) == target
      then store32 m (parent + 28) (load32 m (target + 24))
      else m in
    walk 24 (λ sibling. sibling == target) fuel m1 null (load32 m1 (parent + 28))
    >>= λ (prev, sibling).
        some (if sibling == null then m1 else store32 m1 (prev + 24) (load32 m1 (target + 24)))

-- The fields of the message, in the order of the code.
unfoldable pub fill_message : Mem → (msg : Ptr) → (target : Ptr) → Mem
fill_message m msg target =
    let m1 = store32 (store32 m (msg + 8) null) msg terminated in
    store8 m1 (msg + 4) (load8 m1 (target + 12))

-- `term_proc` returns the stack of the process, or null when there is no such process.
unfoldable pub term_proc : ℕ → ProcessManager → (t_pid : ℕ) → Option (Ptr × ProcessManager)
term_proc fuel s t_pid = elim (find_process 256 s.mem s.slots t_pid 0) [
  | none ↦ some (null, s)
  | some index ↦
      let target = s.slots index in
      adopt fuel s.mem (s.slots 0) (load32 s.mem (target + 28)) >>= λ m1.
      leave fuel m1 target >>= λ m2.
      get_chunk fuel s.process_mem_manager m2 sizeof_message >>= λ (msg, a, m3).
      let m4 = sig_to_parent (fill_message m3 msg target) target msg in
      free fuel a m4 target >>= λ (a', m5). some (
        load32 m4 (target + 4),
        record s {
          slots = set_slot s.slots index null;
          num_of_processes = (s.num_of_processes + 2 ^ 16 - 1) % 2 ^ 16;
          process_mem_manager = a';
          mem = m5;
        },
      )
]

unfoldable pub get_process_mem : ℕ → ProcessManager → Option (Ptr × ProcessManager)
get_process_mem fuel s = get_chunk fuel s.process_mem_manager s.mem sizeof_process >>= λ (p, a, m).
    some (p, record s { process_mem_manager = a; mem = m })

-- `*(dst - i) = *(src - i)` for `i` from `n` down to 1, with the two pointers read once.
unfoldable pub copy_stack : ℕ → Mem → (dst src : Ptr) → Mem
copy_stack zero m dst src = m
copy_stack (suc i) m dst src =
    copy_stack i
      (store8 m ((dst + 2 ^ 32 - suc i) % 2 ^ 32) (load8 m ((src + 2 ^ 32 - suc i) % 2 ^ 32))) dst
      src

-- An assignment of a structure of `n` bytes.
unfoldable pub copy_struct : ℕ → Mem → (dst src : Ptr) → Mem
copy_struct zero m dst src = m
copy_struct (suc n) m dst src = copy_struct n (store8 m dst (load8 m src)) (dst + 1) (src + 1)

-- The fields of the new entry and of its parent.
unfoldable pub link_child : Mem → (new_task t_parent t_stack_p t_cpu_state : Ptr) → Mem
link_child m new_task t_parent t_stack_p t_cpu_state =
    let m1 = store32 (store32 m (new_task + 16) t_parent) (new_task + 20) ready in
    let m2 = store32 m1 (new_task + 24) (load32 m1 (t_parent + 28)) in
    let m3 = store32 m2 (t_parent + 28) new_task in
    let m4 = store8 m3 (t_parent + 32) (load8 m3 (t_parent + 32) + 1) in
    let m5 = store32 m4 (new_task + 8) (load32 m4 (t_parent + 8)) in
    let m6 = store32 m5 (new_task + 4) (t_stack_p + 12) in
    let used = (load32 m6 (t_parent + 4) + 2 ^ 33 - t_cpu_state - 16) % 2 ^ 32 in
    let stack = load32 m6 (new_task + 4) in
    let m7 = store32 m6 new_task ((stack + 2 ^ 32 - used) % 2 ^ 32) in
    copy_stack (if ltb used (2 ^ 31) then used else 0) m7 stack (load32 m7 (t_parent + 4))

unfoldable pub fork_proc :
    ℕ
    → ProcessManager
    → (t_stack_p t_return_addr t_cpu_state t_parent : Ptr) → Option (ℕ × ProcessManager)
fork_proc fuel s t_stack_p t_return_addr t_cpu_state t_parent =
    get_process_mem fuel (record s { mem = store32 s.mem t_parent t_cpu_state })
    >>= λ (new_task, s1).
        let m1 = link_child s1.mem new_task t_parent t_stack_p t_cpu_state in
        let frame = load32 m1 new_task in
        let m2 = store_fields (copy_struct sizeof_cpu_state m1 frame t_cpu_state) frame (
          (40, get_css)
          ∷ (28, get_dss)
          ∷ (52, get_sss)
          ∷ (24, t_stack_p)
          ∷ (48, 0)
          ∷ (36, t_return_addr)
          ∷ (0, 0)
          ∷ []) in
        add_proc (record s1 { mem = m2 }) new_task >>= λ (_, s2).
        some (load8 s2.mem (new_task + 12), s2)

-- `execve_proc` returns the frame, right below the stack pointer.
unfoldable pub execve_proc :
    ProcessManager → (t_process t_parameters t_entry_point : Ptr) → Ptr × ProcessManager
execve_proc s t_process t_parameters t_entry_point =
    let stack = load32 s.mem (t_process + 4) in
    let cpu_state = (stack + 2 ^ 32 - sizeof_cpu_state) % 2 ^ 32 in
    (
      cpu_state,
      record s {
        mem = store_fields (store32 s.mem (t_process + 0) cpu_state) cpu_state (
            (40, get_css)
            ∷ (28, get_dss)
            ∷ (52, t_parameters)
            ∷ (0, 0)
            ∷ (4, 0)
            ∷ (8, 0)
            ∷ (12, 0)
            ∷ (16, 0)
            ∷ (20, 0)
            ∷ (24, stack)
            ∷ (48, 0)
            ∷ (36, t_entry_point)
            ∷ (44, 0x202)
            ∷ []);
      },
    )

-- `processes[current_index]`; `none` is an index of no slot.
unfoldable pub get_current_process : ProcessManager → Option Ptr
get_current_process s = elim s.current_index [
  | pos i ↦ if ltb i 256 then some (s.slots i) else none
  | negsuc n ↦ none
]
