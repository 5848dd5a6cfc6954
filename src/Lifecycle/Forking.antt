-- ===== src/Lifecycle/Forking.antt =====
-- `fork_proc` as a whole: the memory for the entry, the child, and its place in the table.
use a_simple_microkernel.Prelude.{
  ℕ, suc, ◌+◌, ◌-◌, ◌%◌, ◌^◌, ◌≤◌, ◌<◌, ◌≡◌, refl, ap, subst, ◌∙◌, arith, ◌⊎◌, true, some, ◌>>=◌,
}
use a_simple_microkernel.Store.{Ptr, null, Mem, load8, load32, store32}
use a_simple_microkernel.MemManager.{MemManager, get_chunk}
use a_simple_microkernel.MemManager.Bump.{get_chunk-Granted}
use a_simple_microkernel.ProcessManager.{ProcessManager, add_proc, is_ready, set_slot}
use a_simple_microkernel.ProcessManager.Table.{IsValid}
use a_simple_microkernel.ProcessManager.Add.{Counted, Added}
use a_simple_microkernel.Lifecycle.{get_process_mem, fork_proc}
use a_simple_microkernel.Lifecycle.Child
use a_simple_microkernel.Lifecycle.Child.{CanFork}
use a_simple_microkernel.Lifecycle.Fork.{Forked, child_mem, frame, child_mem-eq, frame_word-kept}

-- What `fork_proc` returns: the child in slot `j` with the number `pid`.
pub record Born (s : ProcessManager) (i t ret cpu : Ptr) (pid j : ℕ) (s' : ProcessManager)
    : Type 0 where
  pub family :
      Forked s.mem s'.mem
        (s.process_mem_manager.last_p + 9)
        (s.slots i)
        t
        cpu
        ret
        (t + 12 + cpu + 16 - load32 s.mem (s.slots i + 4))
  pub saved : load32 s'.mem (s.slots i) ≡ cpu
  pub frame_kept : (off : ℕ) → off + 4 ≤ 56 → load32 s'.mem (cpu + off) ≡ load32 s.mem (cpu + off)
  pub free_slot : s.slots j ≡ null
  pub slots : s'.slots ≡ set_slot s.slots j (s.process_mem_manager.last_p + 9)
  pub ready : is_ready s'.mem s'.slots j ≡ true
  pub number : pid ≡ (s.last_pid + 1) % 256
  pub recorded : load8 s'.mem (s.process_mem_manager.last_p + 9 + 12) ≡ pid
  pub current : s'.current_index ≡ s.current_index
  pub valid : IsValid s'
  pub counted : Counted s'
  pub more : s'.num_of_processes ≡ s.num_of_processes + 1

module _ (s : ProcessManager) (i t ret cpu : Ptr) (g : CanFork s i t cpu) (wr : ret < 2 ^ 32) where
  abbrev p : Ptr
  p = s.slots i

  abbrev n : Ptr
  n = s.process_mem_manager.last_p + 9

  abbrev m0 : Mem
  m0 = store32 s.mem p cpu

  module _ (a : MemManager) (k : Mem)
      (kept : (b : Ptr)
        → (b < s.process_mem_manager.last_p) ⊎ (s.process_mem_manager.last_p + 9 ≤ b)
        → k b ≡ m0 b) where
    abbrev child : Mem
    child = Child.child s i t ret cpu g wr a k kept

    abbrev s2 : ProcessManager
    s2 = Child.s2 s i t ret cpu g wr a k kept

    module _ (pid j : ℕ) (s' : ProcessManager) (r : Added s2 n j pid s') where
      abbrev f : Ptr
      f = t + 12 + cpu + 16 - load32 s.mem (p + 4)

      same_frame : frame k n p t cpu ret (Child.placed s i t ret cpu g wr a k kept) wr ≡ f
      same_frame = ap (λ v. t + 12 + cpu + 16 - v) (Child.stack_same s i t ret cpu g wr a k kept)

      family' : Forked k child n p t cpu ret f
      family' =
          subst (Forked k child n p t cpu ret) same_frame (Child.family s i t ret cpu g wr a k kept)

      on_stack : (off : ℕ) → off + 4 ≤ 56 → load32 s'.mem (f + off) ≡ load32 child (f + off)
      on_stack off h =
          let l = g.placed in
          r.kept (f + off) (omega (arith, l.stack_child, l.deep))
            (omega (arith, l.stack_child, l.deep))

      in_parent : (off : ℕ) → off + 4 ≤ 44 → load32 s'.mem (p + off) ≡ load32 child (p + off)
      in_parent off h =
          let l = g.placed in r.kept (p + off) (omega (arith, l.entries)) (omega (arith, l.entries))

      register :
          (off : ℕ)
          → off + 4 ≤ 56
          → load32 child (f + off) ≡ load32 k (cpu + off)
          → load32 s'.mem (f + off) ≡ load32 s.mem (cpu + off)
      register off h e =
          let l = g.placed in
          on_stack off h
          ∙ e
          ∙ Child.old_word s i t ret cpu g wr a k kept (cpu + off)
              (omega (arith, l.below_parent, l.deep)) (omega (arith, g.header_stack, l.deep))

      born-Forked : Forked s.mem s'.mem n p t cpu ret f
      born-Forked =
          let l = g.placed in
          let fk = family' in
          let w = fk.registers in
          record {
            parent = r.kept (n + 16) (omega arith) (omega arith) ∙ fk.parent;
            child = in_parent 28 (omega arith) ∙ fk.child;
            sibling =
                r.kept (n + 24) (omega arith) (omega arith)
                ∙ fk.sibling
                ∙ Child.old_word s i t ret cpu g wr a k kept (p + 28) (omega arith)
                    (omega (arith, g.header_parent));
            stack_size =
                r.kept (n + 8) (omega arith) (omega arith)
                ∙ fk.stack_size
                ∙ Child.old_word s i t ret cpu g wr a k kept (p + 8) (omega arith)
                    (omega (arith, g.header_parent));
            stack = r.kept (n + 4) (omega arith) (omega arith) ∙ fk.stack;
            cpu_state = r.kept n (omega arith) (omega arith) ∙ fk.cpu_state;
            eax = on_stack 0 (omega arith) ∙ fk.eax;
            eip = on_stack 36 (omega arith) ∙ fk.eip;
            ebp = on_stack 24 (omega arith) ∙ fk.ebp;
            cs = on_stack 40 (omega arith) ∙ fk.cs;
            ds = on_stack 28 (omega arith) ∙ fk.ds;
            ss = on_stack 52 (omega arith) ∙ fk.ss;
            registers = (
              register 4 (omega arith) w.0,
              (
                register 8 (omega arith) w.1.0,
                (
                  register 12 (omega arith) w.1.1.0,
                  (
                    register 16 (omega arith) w.1.1.1.0,
                    (
                      register 20 (omega arith) w.1.1.1.1.0,
                      (
                        register 32 (omega arith) w.1.1.1.1.1.0,
                        (register 44 (omega arith) w.1.1.1.1.1.1.0, tt),
                      ),
                    ),
                  ),
                ),
              ),
            );
            copied = λ k' pos_ le.
                r.byte (t + 12 - k') (λ e. absurd (omega (arith, l.stack_child, l.deep)))
                  (omega (arith, l.stack_child, l.deep))
                ∙ fk.copied k' pos_ le
                ∙ ap (λ v. load8 k (v - k')) (Child.stack_same s i t ret cpu g wr a k kept)
                ∙ Child.old_byte s i t ret cpu g wr a k kept (load32 s.mem (p + 4) - k')
                    (omega (arith, l.below_parent, l.deep, l.room))
                    (omega (arith, g.header_stack, l.deep, l.room));
          }

      born-saved : load32 s'.mem p ≡ cpu
      born-saved =
          ap (load32 s'.mem) (omega arith)
          ∙ in_parent 0 (omega arith)
          ∙ Child.parent_kept s i t ret cpu g wr a k kept 0 (omega arith)
          ∙ ap (load32 k) (omega arith)
          ∙ Child.saved_word s i t ret cpu g wr a k kept

      born-frame_kept :
          (off : ℕ) → off + 4 ≤ 56 → load32 s'.mem (cpu + off) ≡ load32 s.mem (cpu + off)
      born-frame_kept off h =
          let l = g.placed in
          let pl = Child.placed s i t ret cpu g wr a k kept in
          r.kept (cpu + off) (omega (arith, l.below_child, l.deep))
            (omega (arith, l.below_child, l.deep))
          ∙ frame_word-kept k n p t cpu ret pl wr (cpu + off) (omega arith) (omega (arith, pl.deep))
          ∙ Child.old_word s i t ret cpu g wr a k kept (cpu + off)
              (omega (arith, l.below_parent, l.deep)) (omega (arith, g.header_stack, l.deep))

      born : Born s i t ret cpu pid j s'
      born = record {
        family = born-Forked;
        saved = born-saved;
        frame_kept = born-frame_kept;
        free_slot = r.first.empty;
        slots = r.slots;
        ready = r.ready;
        number = r.pid;
        recorded = r.recorded;
        current = r.current;
        valid = r.valid;
        counted = r.counted;
        more = r.number;
      }

  -- The run of `fork_proc` on the memory that the manager grants.
  fork_proc-run :
      (fuel : ℕ) (r : Ptr × MemManager × Mem)
      → get_chunk fuel s.process_mem_manager m0 44 ≡ some r
      → r.0 ≡ n
      → fork_proc fuel s t ret cpu p ≡ (
          add_proc (record s { process_mem_manager = r.1; mem = child_mem r.2 n p t cpu ret }) n
          >>= λ (_, s2). some (load8 s2.mem (n + 12), s2))
  unfolding fork_proc get_process_mem
  fork_proc-run fuel (c, a, k) got e = rw (got, e) refl

  -- When the process of a slot forks, in a valid table that is not full and whose count is right, with
  -- its state saved on its own stack, `fork_proc` returns, where the memory for entries has never had
  -- a chunk given back and has room for one more, and where nothing that is written overlaps another
  -- entry or the parent's stack. It makes an entry in a free slot: ready, with the next number in eight
  -- bits, which is returned, its parent's stack size and the first among its parent's children. The
  -- child's stack is a copy of the parent's from behind the frame on; its frame has the parent's
  -- registers but a zero eax, the new stack as ebp, the return address as eip and the kernel's
  -- selectors. The parent's frame is recorded, the process in execution stays, and the table is valid
  -- again with one process more.
  pub fork_proc-Born :
      (fuel : ℕ)
      → (pid j : ℕ) × (s' : ProcessManager) × (fork_proc (suc fuel) s t ret cpu (s.slots i)
          ≡ some (pid, s'))
        × Born s i t ret cpu pid j s'
  fork_proc-Born fuel =
      let (r, got, granted, _) =
        get_chunk-Granted s.process_mem_manager m0 44 fuel g.chunks g.never_freed
          (omega (arith, g.fits)) in
      let (pid, s', j, run, done) = Child.added s i t ret cpu g wr r.1 r.2 granted.kept in
      (
        pid,
        j,
        s',
        fork_proc-run (suc fuel) r got granted.place
            ∙ rw
                (
                  child_mem-eq r.2 n p t cpu ret
                      (Child.placed s i t ret cpu g wr r.1 r.2 granted.kept) wr,
                  run,
                  done.recorded,
                )
                refl,
        born r.1 r.2 granted.kept pid j s' done,
      )
