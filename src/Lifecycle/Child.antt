-- ===== src/Lifecycle/Child.antt =====
-- The child that `fork_proc` makes on the memory that it is granted, and its entry into the table.
use a_simple_microkernel.Prelude.{
  ℕ, ◌+◌, ◌-◌, ◌%◌, ◌^◌, ◌≤◌, ◌<◌, ◌≡◌, ◌≢◌, sym, ap, subst, ◌∙◌, arith, ◌⊎◌, some, ℕ_discrete,
}
use a_simple_microkernel.Store.{Ptr, null, Mem, load8, load32, store32}
use a_simple_microkernel.Store.Laws.{
  Apart, load32-lt, load32-store32_self, load32-store32_ne, load8-store32_ne,
}
use a_simple_microkernel.MemManager.{MemManager, get_limit}
use a_simple_microkernel.MemManager.Bump
use a_simple_microkernel.MemManager.Bump.{Granted, get_chunk-Granted}
use a_simple_microkernel.ProcessManager.{ProcessManager, add_proc}
use a_simple_microkernel.ProcessManager.Table.{IsValid}
use a_simple_microkernel.ProcessManager.Add.{Counted, Added, add_proc-Added}
use a_simple_microkernel.Lifecycle.Copy.{load32-eq}
use a_simple_microkernel.Lifecycle.Linked.{linked, linked-Linked, parent_word4, parent_word6}
use a_simple_microkernel.Lifecycle.Fork.{
  Forked, Placed, frame, m10, m10-Forked, parent_field, m10_word,
}

-- The state in which the process of slot `i` forks. Its state was saved at `cpu`, on its own stack,
-- and the child's stack ends at `t`. The memory for entries has never had a chunk given back and has
-- room for one more, and what is written lies apart from all entries of the table.
pub record CanFork (s : ProcessManager) (i t cpu : Ptr) : Type 0 where
  pub valid : IsValid s
  pub counted : Counted s
  pub room : s.num_of_processes < 256
  pub slot : i < 256
  pub occupied : s.slots i ≢ null
  pub chunks : Bump.IsValid s.process_mem_manager
  pub never_freed : s.process_mem_manager.free_list ≡ null
  pub fits : s.process_mem_manager.last_p + 53 ≤ get_limit s.process_mem_manager.segment_sl
  pub placed :
      Placed (load32 s.mem (s.slots i + 4)) (s.process_mem_manager.last_p + 9) (s.slots i) t cpu
  pub header_parent : Apart (s.slots i) 44 s.process_mem_manager.last_p 9
  pub header_stack : Apart cpu (load32 s.mem (s.slots i + 4) - cpu) s.process_mem_manager.last_p 9
  pub clear :
      (k : ℕ)
      → k < 256
      → s.slots k ≢ null
      → Apart (s.slots k) 44 s.process_mem_manager.last_p 53
        × Apart
            (s.slots k)
            44
            (t + 12 + cpu + 16 - load32 s.mem (s.slots i + 4))
            (load32 s.mem (s.slots i + 4) - cpu - 16)

module _ (s : ProcessManager) (i t ret cpu : Ptr) (g : CanFork s i t cpu) (wr : ret < 2 ^ 32) where
  abbrev p : Ptr
  p = s.slots i

  abbrev n : Ptr
  n = s.process_mem_manager.last_p + 9

  abbrev m0 : Mem
  m0 = store32 s.mem p cpu

  module _ (a : MemManager) (k : Mem)
      (kept : (b : Ptr)
        → (b < s.process_mem_manager.last_p) ⊎ (s.process_mem_manager.last_p + 9 ≤ b)
        → k b ≡ m0 b) where
    -- The bytes that neither the parent's frame pointer nor the header of the new entry takes.
    pub old_byte :
        (b : Ptr)
        → Apart b 1 p 4
        → Apart b 1 s.process_mem_manager.last_p 9
        → load8 k b ≡ load8 s.mem b
    unfolding load8
    old_byte b h h' = ap (λ v. v % 256) (kept b (omega arith)) ∙ load8-store32_ne s.mem p cpu b h

    pub old_word :
        (b : Ptr)
        → Apart b 4 p 4
        → Apart b 4 s.process_mem_manager.last_p 9
        → load32 k b ≡ load32 s.mem b
    old_word b h h' = load32-eq k s.mem b b (λ j lt. old_byte (b + j) (omega arith) (omega arith))

    pub saved_word : load32 k p ≡ cpu
    unfolding load8
    saved_word =
        load32-eq k m0 p p
          (λ j lt. ap (λ v. v % 256) (kept (p + j) (omega (arith, g.header_parent))))
        ∙ load32-store32_self s.mem p cpu
        ∙ omega (arith, g.placed.deep, load32-lt s.mem (p + 4))

    pub stack_same : load32 k (p + 4) ≡ load32 s.mem (p + 4)
    stack_same = old_word (p + 4) (omega arith) (omega (arith, g.header_parent))

    pub placed : Placed (load32 k (p + 4)) n p t cpu
    placed = subst (λ v. Placed v n p t cpu) (sym stack_same) g.placed

    abbrev pub child : Mem
    child = m10 k n p t cpu ret placed wr

    pub family : Forked k child n p t cpu ret (frame k n p t cpu ret placed wr)
    family = m10-Forked k n p t cpu ret placed wr

    pub parent_kept : (off : ℕ) → off + 4 ≤ 28 → load32 child (p + off) ≡ load32 k (p + off)
    parent_kept off h =
        let l = g.placed in
        parent_field k n p t cpu ret placed wr off (omega arith)
        ∙ parent_word6 k n p t cpu l.entries l.child_word l.parent_word l.top_word off (omega arith)
        ∙ parent_word4 k n p t cpu l.entries l.child_word l.parent_word l.top_word off (omega arith)

    parent_state : load32 child (p + 20) ≡ load32 s.mem (p + 20)
    parent_state =
        parent_kept 20 (omega arith)
        ∙ old_word (p + 20) (omega arith) (omega (arith, g.header_parent))

    other_state :
        (x : ℕ)
        → x < 256
        → s.slots x ≢ null
        → x ≢ i
        → load32 child (s.slots x + 20) ≡ load32 s.mem (s.slots x + 20)
    other_state x lt occ ne =
        let l = g.placed in
        let (far, off_stack) = g.clear x lt occ in
        let apart = g.valid.objects x i lt g.slot ne occ g.occupied in
        let q = s.slots x + 20 in
        let linked_ = linked-Linked k n p t cpu l.entries l.child_word l.parent_word l.top_word in
        m10_word k n p t cpu ret placed wr q (omega (arith, stack_same))
        ∙ load32-store32_ne (linked k n p t cpu) n (frame k n p t cpu ret placed wr) q (omega arith)
        ∙ load32-eq (linked k n p t cpu) k q q
            (λ j lt. linked_.kept (q + j) (omega arith) (omega arith))
        ∙ old_word q (omega arith) (omega arith)

    abbrev pub s2 : ProcessManager
    s2 = record s { process_mem_manager = a; mem = child }

    s2-IsValid : IsValid s2
    s2-IsValid = record {
      index = g.valid.index;
      occupied = g.valid.occupied;
      objects = g.valid.objects;
      sole = λ x lt occ run. elim (ℕ_discrete x i) [
        | yes e ↦ g.valid.sole x lt occ (
            sym (
              subst (λ y. load32 child (s.slots y + 20) ≡ load32 s.mem (s.slots y + 20)) (sym e)
                parent_state)
            ∙ run)
        | no ne ↦ g.valid.sole x lt occ (sym (other_state x lt occ ne) ∙ run)
      ];
    }

    pub added :
        (pid : ℕ) × (s' : ProcessManager) × (j : ℕ) × (add_proc s2 n ≡ some (pid, s'))
        × Added s2 n j pid s'
    added =
        add_proc-Added s2 n s2-IsValid g.counted g.room (λ e. absurd (omega arith))
          (λ x lt occ. let (far, _) = g.clear x lt occ in omega arith)
