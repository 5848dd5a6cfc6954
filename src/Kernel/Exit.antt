-- ===== src/Kernel/Exit.antt =====
-- The system call `exit` of a child of the init process.
use a_simple_microkernel.Prelude.{
  ℕ, ◌+◌, ◌≤◌, ◌<◌, ◌≡◌, ◌≢◌, refl, sym, ap, subst, ◌∙◌, ℤ, pos, negsuc, true, List, [], ◌∷◌, ◌++◌,
  some, arith, All, All-map, length, ◌⊎◌, inl, ne→==, eq→==, lt→ltb, ℕ_discrete,
}
use a_simple_microkernel.Store.{Ptr, null, Mem, load8, load32}
use a_simple_microkernel.Store.Laws.{Apart}
use a_simple_microkernel.Store.Chain.{Away}
use a_simple_microkernel.MemManager.{MemManager}
use a_simple_microkernel.MemManager.Freed.{free-kept}
use a_simple_microkernel.Process.{get_pid}
use a_simple_microkernel.ProcessManager.{ProcessManager, set_slot, is_ready, schedule}
use a_simple_microkernel.ProcessManager.Table.{IsValid, is_ready-true, is_ready_of}
use a_simple_microkernel.ProcessManager.Search.{IsIndex}
use a_simple_microkernel.ProcessManager.Schedule.{schedule-Switched}
use a_simple_microkernel.Lifecycle.{get_current_process}
use a_simple_microkernel.Lifecycle.Term.{CanEnd, Gone, term_proc-run}
use a_simple_microkernel.Kernel.{Kernel, sys_exit, handle_interrupt}

-- The process in slot `i` is in execution and can end, in a valid table, and another process, in slot
-- `next`, is ready. Memory for stacks was never given back. The message and the stack are apart from
-- the entries of the table, and the entries of children are the table's or apart from them.
pub record CanExit (k : Kernel) (i : ℕ) (xs ys zs : List Ptr) (next : ℕ) : Type 0 where
  pub valid : IsValid k.process_manager
  pub slot : i < 256
  pub current : k.process_manager.current_index ≡ pos i
  pub ends :
      CanEnd k.process_manager
        (load8 k.process_manager.mem (k.process_manager.slots i + 12))
        i
        xs
        ys
        zs
  pub occupied : k.process_manager.slots i ≢ null
  pub init : k.process_manager.slots 0 ≢ null
  pub never_freed : k.ss_manager.free_list ≡ null
  pub clear :
      (j : ℕ)
      → j < 256
      → k.process_manager.slots j ≢ null
      → Apart k.process_manager.process_mem_manager.last_p 21 (k.process_manager.slots j) 44
        × Apart
            (load32 k.process_manager.mem (k.process_manager.slots i + 4) + 4)
            4
            (k.process_manager.slots j)
            44
        × All (λ x. (x ≡ k.process_manager.slots j) ⊎ Apart x 44 (k.process_manager.slots j) 44) xs
        × All
            (λ x. (x ≡ k.process_manager.slots j) ⊎ Apart x 44 (k.process_manager.slots j) 44)
            (ys ++ k.process_manager.slots i ∷ zs)
  pub inside : next < 256
  pub other : next ≢ i
  pub ready : is_ready k.process_manager.mem k.process_manager.slots next ≡ true
  pub more : 2 ≤ k.process_manager.num_of_processes

abbrev index_of : ℤ → ℕ
index_of (pos j) = j
index_of (negsuc n) = 0

-- The kernel behind the call, which returned the frame of the process in slot `j`.
pub record Exited (k : Kernel) (i j : ℕ) (r : Ptr × Kernel) : Type 0 where
  pub other : j ≢ i
  pub was_ready : is_ready k.process_manager.mem k.process_manager.slots j ≡ true
  pub frame : r.0 ≡ load32 k.process_manager.mem (k.process_manager.slots j)
  pub slots : r.1.process_manager.slots ≡ set_slot k.process_manager.slots i null
  pub less : r.1.process_manager.num_of_processes + 1 ≡ k.process_manager.num_of_processes
  pub current : r.1.process_manager.current_index ≡ pos j
  pub valid : IsValid r.1.process_manager

module _ (k : Kernel) (i : ℕ) (xs ys zs : List Ptr) (next : ℕ) (g : CanExit k i xs ys zs next) where
  abbrev s : ProcessManager
  s = k.process_manager

  abbrev t : Ptr
  t = s.slots i

  abbrev stack : Ptr
  stack = load32 s.mem (t + 4)

  running : get_current_process s ≡ some t
  unfolding get_current_process
  running = rw (g.current, lt→ltb i 256 g.slot) refl

  root-Apart :
      (j off : ℕ)
      → j < 256
      → s.slots j ≢ null
      → off + 4 ≤ 24
      → Apart (s.slots j + off) 4 (s.slots 0 + 28) 16
  root-Apart j off lt occ h = elim (ℕ_discrete j 0) [
    | yes e ↦ let same : s.slots j ≡ s.slots 0 = ap s.slots e in omega arith
    | no ne ↦ let apart = g.valid.objects j 0 lt (omega arith) ne occ g.init in omega arith
  ]

  module _ (s1 : ProcessManager) (gone : Gone s i xs ys zs s1)
      (kept : (b : Ptr)
        → Away 24 b xs
        → Away 24 b (ys ++ t ∷ zs)
        → Apart b 4 (s.slots 0 + 28) 16
        → Apart b 4 s.process_mem_manager.last_p 21
        → Apart b 4 (t + 4) 4
        → load32 s1.mem b ≡ load32 s.mem b)
      (m6 : Mem)
      (kept6 : (b : Ptr)
        → Apart b 4 (stack + 4) 4
        → Away 4 b []
        → load32 m6 b ≡ load32 s1.mem b) where
    -- The table without the process.
    abbrev s2 : ProcessManager
    s2 = record s1 { mem = m6; current_index = negsuc 0 }

    word :
        (j off : ℕ)
        → j < 256
        → s.slots j ≢ null
        → j ≢ i
        → off + 4 ≤ 24
        → load32 m6 (s.slots j + off) ≡ load32 s.mem (s.slots j + off)
    word j off lt occ ne h =
        let (far, off_stack, kids, sibs) = g.clear j lt occ in
        let apart = g.valid.objects j i lt g.slot ne occ g.occupied in
        let P : Ptr → Type 0 = λ x. (x ≡ s.slots j) ⊎ Apart x 44 (s.slots j) 44 in
        let Q : Ptr → Type 0 = λ x. Apart (x + 24) 4 (s.slots j + off) 4 in
        kept6 (s.slots j + off) (omega arith) tt
        ∙ kept (s.slots j + off) (All-map P Q (λ x a. omega arith) xs kids)
            (All-map P Q (λ x a. omega arith) (ys ++ t ∷ zs) sibs) (root-Apart j off lt occ h)
            (omega arith) (omega arith)

    slot_other : (j : ℕ) → j ≢ i → s1.slots j ≡ s.slots j
    unfolding set_slot
    slot_other j ne = ap (λ q. q j) gone.slots ∙ rw (ne→== j i ne) refl

    empty : s1.slots i ≡ null
    unfolding set_slot
    empty = ap (λ q. q i) gone.slots ∙ rw (eq→== i i refl) refl

    others : (j : ℕ) → s1.slots j ≢ null → (j ≢ i) × (s1.slots j ≡ s.slots j) × (s.slots j ≢ null)
    others j occ =
        let ne : j ≢ i = λ e. occ (ap s1.slots e ∙ empty) in
        let same = slot_other j ne in (ne, same, λ e. occ (same ∙ e))

    s2-IsValid : IsValid s2
    s2-IsValid = record {
      index = refl;
      occupied = tt;
      objects = λ a b la lb ne oa ob.
          let (_, ea, na) = others a oa in
          let (_, eb, nb) = others b ob in rw (ea, eb) (g.valid.objects a b la lb ne na nb);
      sole = λ a lt occ run.
          let (ne, e, n) = others a occ in
          let at =
            g.valid.sole a lt n (
              sym (word a 20 lt n ne (omega arith)) ∙ ap (λ p. load32 m6 (p + 20)) (sym e) ∙ run) in
          absurd (ne (ap index_of (sym at ∙ g.current)));
    }

    s2-ready : is_ready m6 s1.slots next ≡ true
    s2-ready =
        let (occ, was) = is_ready-true s.mem s.slots next g.ready in
        let same = slot_other next g.other in
        is_ready_of m6 s1.slots next (λ e. occ (sym same ∙ e))
          (ap (λ p. load32 m6 (p + 20)) same
            ∙ word next 20 g.inside occ g.other (omega arith)
            ∙ was)

    exited :
        (cpu : Ptr) (ss : MemManager)
        → (r : Ptr × ProcessManager) × (j : ℕ) × (schedule 256 s2 cpu ≡ some r)
          × Exited k i j (r.0, record { process_manager = r.1; ss_manager = ss })
    exited cpu ss =
        let (r, j, e, run, w, v, _) =
          schedule-Switched s2 cpu s2-IsValid next (omega (arith, gone.less, g.more)) g.inside
            (inl s2-ready) in
        let (occ, state) = is_ready-true m6 s1.slots j w.first.ready in
        let (ne, same, n) = others j occ in
        let inside : j < 256 = subst IsIndex w.current v.index in
        (
          r,
          j,
          run,
          record {
            other = ne;
            was_ready = is_ready_of s.mem s.slots j n (
                sym (word j 20 inside n ne (omega arith))
                ∙ ap (λ p. load32 m6 (p + 20)) (sym same)
                ∙ state);
            frame =
                w.frame
                ∙ ap (load32 m6) (same ∙ omega arith)
                ∙ word j 0 inside n ne (omega arith)
                ∙ ap (load32 s.mem) (omega arith);
            slots = w.slots ∙ gone.slots;
            less = omega (arith, w.number, gone.less);
            current = w.current;
            valid = v;
          },
        )

  sys_exit-Exited :
      (cpu : Ptr)
      → length xs + length (ys ++ t ∷ zs) < 256
      → (r : Ptr × Kernel) × (j : ℕ) × (sys_exit 256 k cpu ≡ some r) × Exited k i j r
  unfolding sys_exit get_pid
  sys_exit-Exited cpu few =
      let (s1, run1, gone, _, kept) =
        term_proc-run 255 s (load8 s.mem (t + 12)) i xs ys zs g.ends few in
      let (freed, run6, kept6) =
        free-kept k.ss_manager s1.mem stack 256 [] g.never_freed (omega arith) in
      let (r, j, run, done) = exited s1 gone kept freed.1 kept6 cpu freed.0 in
      (
        (r.0, record { process_manager = r.1; ss_manager = freed.0 }),
        j,
        rw (running, run1, run6, run) refl,
        done,
      )

  -- When a child of the init process calls `exit`, in a state as `CanExit` says and with fewer than 256
  -- children and siblings, the kernel returns the frame of another process that was ready. That
  -- process is then in execution; the slot of the one that called is empty, all other slots are as
  -- they were, one process less is counted, and the table is valid.
  pub handle_interrupt-Exited :
      (cpu : Ptr)
      → length xs + length (ys ++ t ∷ zs) < 256
      → load32 s.mem cpu ≡ 1
      → (r : Ptr × Kernel) × (j : ℕ) × (handle_interrupt 256 k cpu ≡ some r) × Exited k i j r
  unfolding handle_interrupt
  handle_interrupt-Exited cpu few number =
      let (r, j, run, done) = sys_exit-Exited cpu few in (r, j, rw (number, run) refl, done)
