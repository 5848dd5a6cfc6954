-- ===== src/Boot/Init.antt =====
-- What the kernel has set up when `run` enters its last loop.
use a_simple_microkernel.Prelude.{
  ℕ, zero, suc, ◌+◌, ◌-◌, ◌*◌, ◌%◌, ◌^◌, ◌≤◌, ◌<◌, ◌≡◌, ℕ_discrete, refl, sym, subst, ◌∙◌, ap, ap₂,
  pos, negsuc, true, some, arith, inl, eq→==,
}
use a_simple_microkernel.Store.{Ptr, null, Mem, load8, load32}
use a_simple_microkernel.Gdt.{get_css, get_sss, get_pss}
use a_simple_microkernel.MemManager
use a_simple_microkernel.MemManager.{MemManager, get_chunk, get_limit, get_base}
use a_simple_microkernel.MemManager.Bump.{get_chunk-Granted, new-IsValid}
use a_simple_microkernel.Process.{setup}
use a_simple_microkernel.Process.Setup.{setup-Started}
use a_simple_microkernel.ProcessManager.{ProcessManager, is_ready, set_slot, schedule}
use a_simple_microkernel.ProcessManager.Table.{IsValid, saved}
use a_simple_microkernel.ProcessManager.Search.{distance, origin}
use a_simple_microkernel.ProcessManager.Schedule.{schedule-Switched}
use a_simple_microkernel.ProcessManager.Add.{count, Counted, add_proc-Added, set_slot_self}
use a_simple_microkernel.Lifecycle.{get_process_mem}
use a_simple_microkernel.Boot.{create_init}

-- A manager with an empty table is valid.
abbrev pub Empty : ProcessManager → Type 0
Empty s = ((i : ℕ) → s.slots i ≡ null) × (s.num_of_processes ≡ 0) × (s.current_index ≡ negsuc 0)

Empty-IsValid : (s : ProcessManager) → Empty s → IsValid s
Empty-IsValid s (none_used, z, idle) = record {
  index = rw idle refl;
  occupied = rw idle tt;
  objects = λ i j li lj ne oi oj. absurd (oi (none_used i));
  sole = λ i lt occ run. absurd (occ (none_used i));
}

count-empty : (n : ℕ) (slots : ℕ → Ptr) (i : ℕ) → ((i : ℕ) → slots i ≡ null) → count n slots i ≡ 0
unfolding count
count-empty zero slots i h = refl
count-empty (suc n) slots i h =
    rw (eq→== (slots i) 0 (h i)) (omega (arith, count-empty n slots (i + 1) h))

-- The addresses of the entry and of the stack of the init process, at the beginnings of their
-- segments.
abbrev pub init_entry : Ptr
init_entry = 0x280009

abbrev pub init_stack : Ptr
init_stack = 0x201008

-- The frame that the process starts from.
abbrev pub init_frame : Ptr
init_frame = init_stack - 56

-- What `create_init` leaves: a table with one process, which is ready and starts at `init`.
pub record Created (init : Ptr) (s : ProcessManager) : Type 0 where
  pub valid : IsValid s
  pub counted : Counted s
  pub number : s.num_of_processes ≡ 1
  pub idle : s.current_index ≡ negsuc 0
  pub slot : s.slots 0 ≡ init_entry
  pub ready : is_ready s.mem s.slots 0 ≡ true
  pub pid : load8 s.mem (init_entry + 12) ≡ 0
  pub cpu_state : load32 s.mem init_entry ≡ init_frame
  pub stack : load32 s.mem (init_entry + 4) ≡ init_stack
  pub eip : load32 s.mem (init_frame + 36) ≡ init
  pub cs : load32 s.mem (init_frame + 40) ≡ get_css
  pub eflags : load32 s.mem (init_frame + 44) ≡ 0x202

new_empty : (sl : ℕ) → (MemManager.new sl).free_list ≡ null
unfolding MemManager.new
new_empty sl = refl

new_place : (sl : ℕ) → sl < 2 ^ 16 → (MemManager.new sl).last_p + 9 ≡ sl * 65536 + 9
unfolding MemManager.new get_base
new_place sl h = omega arith

new_fits :
    (sl n : ℕ)
    → sl < 2 ^ 16
    → n + 9 ≤ 65535
    → (MemManager.new sl).last_p + n + 9 ≤ get_limit (MemManager.new sl).segment_sl
unfolding MemManager.new get_base get_limit
new_fits sl n h fit = omega arith

-- The first chunk of a segment begins behind its header.
first_chunk :
    (fuel : ℕ) (sl : ℕ) (m : Mem) (n : ℕ)
    → sl < 2 ^ 16
    → n + 9 ≤ 65535
    → (a : MemManager) × (k : Mem) × (get_chunk (suc fuel) (MemManager.new sl) m n
        ≡ some (sl * 65536 + 9, a, k))
first_chunk fuel sl m n h fit =
    let (r, run, g, v) =
      get_chunk-Granted (MemManager.new sl) m n fuel (new-IsValid sl h) (new_empty sl)
        (new_fits sl n h fit) in
    (r.1, r.2, run ∙ ap (λ p. some (p, r.1, r.2)) (g.place ∙ new_place sl h))

pub create_init-Created :
    (fuel : ℕ) (s : ProcessManager) (init : Ptr)
    → Empty s
    → s.process_mem_manager ≡ MemManager.new get_pss
    → s.last_pid ≡ 2 ^ 32 - 1
    → init < 2 ^ 32
    → (s' : ProcessManager) × (ss : MemManager) × (create_init
          (suc fuel)
          s
          (MemManager.new get_sss)
          init
        ≡ some (s', ss))
      × Created init s'
unfolding create_init get_process_mem
create_init-Created fuel s init e em el lt =
    let (a, k, run) = first_chunk fuel get_pss s.mem 44 (omega arith) (omega arith) in
    let (ss, m, run') = first_chunk fuel get_sss k 4096 (omega arith) (omega arith) in
    let m' = setup m init_entry init init_stack 16384 in
    let s1 = record s { process_mem_manager = a; mem = m' } in
    let started =
      setup-Started m init_entry init init_stack 16384 (omega arith) (omega arith) lt (omega arith)
        (omega arith) in
    let z : s1.num_of_processes ≡ 0 = e.1 in
    let (pid, s2, j, added, r) =
      add_proc-Added s1 init_entry (Empty-IsValid s1 e) (z ∙ sym (count-empty 256 s1.slots 0 e.0))
        (omega arith) (omega arith) (λ i li occ. absurd (occ (e.0 i))) in
    let first : j ≡ 0 = elim (ℕ_discrete j 0) [
      | yes p ↦ p
      | no ne ↦ absurd (r.first.full 0 (omega arith) (omega arith) (e.0 0))
    ] in
    let slot : s2.slots 0 ≡ init_entry =
      ap (λ f. f 0) r.slots
      ∙ subst (λ i. set_slot s.slots i init_entry 0 ≡ init_entry) (sym first)
          (set_slot_self s.slots 0 init_entry) in
    (
      s2,
      ss,
      rw (em, run, run', added) refl,
      record {
        valid = r.valid;
        counted = r.counted;
        number = r.number ∙ ap (λ n. n + 1) z;
        idle = r.current ∙ e.2;
        slot = slot;
        ready = subst (λ i. is_ready s2.mem s2.slots i ≡ true) first r.ready;
        pid = r.recorded ∙ r.pid ∙ ap (λ n. (n + 1) % 256) el;
        cpu_state = r.kept init_entry (omega arith) (omega arith) ∙ started.cpu_state;
        stack = r.kept (init_entry + 4) (omega arith) (omega arith) ∙ started.stack;
        eip = r.kept (init_frame + 36) (omega arith) (omega arith) ∙ started.eip;
        cs = r.kept (init_frame + 40) (omega arith) (omega arith) ∙ started.cs;
        eflags = r.kept (init_frame + 44) (omega arith) (omega arith) ∙ started.eflags;
      },
    )

-- The first switch from a state that `create_init` leaves puts the init process into execution.
pub schedule-Created :
    (init : Ptr) (s : ProcessManager) (esp : Ptr)
    → Created init s
    → (s' : ProcessManager) × (schedule 256 s esp ≡ some (init_frame, s'))
      × (s'.current_index ≡ pos 0)
      × (load32 s'.mem (init_frame + 36) ≡ init)
      × IsValid s'
unfolding distance
schedule-Created init s esp c =
    let (r, j, e, run, sw, v, le) =
      schedule-Switched s esp c.valid 0 (omega (arith, c.number)) (omega arith) (inl c.ready) in
    let m : saved s.mem s.slots esp s.current_index ≡ s.mem = ap (saved s.mem s.slots esp) c.idle in
    let o : origin s.current_index ≡ 255 = ap origin c.idle in
    let near = subst (λ k. e ≤ distance k 0) o le in
    let first : j ≡ 0 = omega (arith, sw.first.place, o) in
    let slot : s.slots j ≡ init_entry = ap s.slots first ∙ c.slot in
    let frame : r.0 ≡ init_frame = sw.frame ∙ ap₂ load32 m slot ∙ c.cpu_state in
    (
      r.1,
      run ∙ ap (λ p. some (p, r.1)) frame,
      sw.current ∙ ap pos first,
      sw.kept (init_frame + 36) (rw slot (omega arith))
          ∙ ap (λ k. load32 k (init_frame + 36)) m
          ∙ c.eip,
      v,
    )
