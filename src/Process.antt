-- ===== src/Process.antt =====
-- Process entries and their messages in memory: src/multitasking/process.cpp and
-- include/multitasking/process.h. A pointer to an object is its address, and a field is read and
-- written at its offset as i386 lays the struct out.
pub mod Setup
pub mod Receive
pub mod Signal
use a_simple_microkernel.Prelude.{
  ℕ, ◌+◌, ◌-◌, ◌%◌, ◌^◌, Bool, ◌&&◌, ◌||◌, Option, some, List, [], ◌∷◌, ◌==◌, if◌then◌else◌, ◌>>=◌,
}
use a_simple_microkernel.Store.{Ptr, null, Mem, load8, load32, store8, store32}
use a_simple_microkernel.Store.Chain.{walk}
use a_simple_microkernel.Gdt.{get_css, get_dss, get_sss}

-- `struct CPUState`, packed: fourteen words.
abbrev pub sizeof_cpu_state : ℕ
sizeof_cpu_state = 56

-- `enum ProcessState`
abbrev pub running : ℕ
running = 0

abbrev pub ready : ℕ
ready = 1

abbrev pub blocked : ℕ
blocked = 2

abbrev pub terminated : ℕ
terminated = 3

-- `class Process`: `cpu_state` at 0, `stack` at 4, `stack_size` at 8, `pid` (one byte) at 12,
-- `parent` at 16, `state` at 20, `sibling` at 24, `child` at 28, `num_of_children` (one byte) at 32,
-- `msg_queue_head` at 36 and `msg_queue_tail` at 40.
abbrev pub sizeof_process : ℕ
sizeof_process = 44

-- `struct Message`: `state` at 0, `pid` (one byte) at 4 and `next` at 8.
abbrev pub sizeof_message : ℕ
sizeof_message = 12

-- Words stored one after the other, each at its offset from `p`.
unfoldable pub store_fields : Mem → Ptr → List (ℕ × ℕ) → Mem
store_fields m p [] = m
store_fields m p ((off, v) ∷ fields) = store_fields (store32 m (p + off) v) p fields

-- `Process::setup`: the frame that the process starts from lies right below its stack pointer, in
-- the order eax, ebx, ecx, edx, esi, edi, ebp, ds, error, eip, cs, eflags, esp, ss.
unfoldable pub setup : Mem → (this t_entry_point t_stack_p t_stack_size : ℕ) → Mem
unfolding store_fields
setup m this t_entry_point t_stack_p t_stack_size =
    let cpu_state = (t_stack_p + 2 ^ 32 - sizeof_cpu_state) % 2 ^ 32 in
    let m' =
      store_fields m this
        ((20, ready) ∷ (8, t_stack_size) ∷ (4, t_stack_p) ∷ (0, cpu_state) ∷ []) in
    store_fields m' cpu_state (
      (40, get_css)
      ∷ (28, get_dss)
      ∷ (52, get_sss)
      ∷ (0, 0)
      ∷ (4, 0)
      ∷ (8, 0)
      ∷ (12, 0)
      ∷ (16, 0)
      ∷ (20, 0)
      ∷ (24, t_stack_p)
      ∷ (48, 0)
      ∷ (36, t_entry_point)
      ∷ (44, 0x202)
      ∷ [])

-- `Process::Process`, which has no use for its parent.
unfoldable pub new : Mem → (this t_entry_point t_stack_p t_stack_size : ℕ) → Mem
unfolding setup
new m this t_entry_point t_stack_p t_stack_size =
    let m1 = setup m this t_entry_point t_stack_p t_stack_size in
    store32 (store8 (store8 m1 (this + 32) 0) (this + 12) 255) (this + 28) null

unfoldable pub get_stack_size : Mem → Ptr → ℕ
get_stack_size m this = load32 m (this + 8)

unfoldable pub get_pid : Mem → Ptr → ℕ
get_pid m this = load8 m (this + 12)

-- `Process::sig_to_parent`. When the parent's queue is not empty, the message goes behind the tail of
-- the sender's own queue.
unfoldable pub sig_to_parent : Mem → (this t_msg : Ptr) → Mem
sig_to_parent m this t_msg =
    let parent = load32 m (this + 16) in
    if load32 m (parent + 36) == null
    then store32 (store32 m (parent + 36) t_msg) (parent + 40) t_msg
    else store32 (store32 m (load32 m (this + 40) + 8) t_msg) (this + 40) t_msg

-- The test of the loop of `rec_msg`. The `int16_t` argument `pid` is its 16-bit pattern, -1 being
-- 65535.
unfoldable pub matches : Mem → (state pid : ℕ) → Ptr → Bool
matches m state pid msg = load32 m msg == state && (pid == 65535 || load8 m (msg + 4) == pid)

-- `Process::rec_msg` returns the message, or null, and the memory with the message taken out.
unfoldable pub rec_msg : ℕ → Mem → (this : Ptr) → (state pid : ℕ) → Option (Ptr × Mem)
unfolding walk matches
rec_msg fuel m this state pid =
    walk 8 (matches m state pid) fuel m null (load32 m (this + 36)) >>= λ (prev, msg). some (
      if msg == null
      then (null, m)
      else if msg == load32 m (this + 36)
      then (msg, store32 m (this + 36) (load32 m (msg + 8)))
      else (msg, store32 m (prev + 8) (load32 m (msg + 8))))
