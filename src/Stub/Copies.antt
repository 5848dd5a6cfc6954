-- ===== src/Stub/Copies.antt =====
-- The frames of the parent and of the child behind a fork.
use a_simple_microkernel.Prelude.{
  ℕ, ◌+◌, ◌-◌, ◌%◌, ◌^◌, ◌≤◌, ◌≡◌, refl, ap, ◌∙◌, true, some, arith, eq→==,
}
use a_simple_microkernel.Store.{Ptr, Mem, load32, store32}
use a_simple_microkernel.Store.Laws.{Apart, load32-store32_self, load32-store32_ne}
use a_simple_microkernel.Gdt.{get_css, get_dss}
use a_simple_microkernel.ProcessManager.{ProcessManager, is_ready, set_slot}
use a_simple_microkernel.Lifecycle.{get_current_process}
use a_simple_microkernel.Lifecycle.Forking.{Born}
use a_simple_microkernel.Kernel.{Kernel}
use a_simple_microkernel.Kernel.Forks.{HasStack, with_stack, stack, with_stack-word}
use a_simple_microkernel.Stub.{Registers}
use a_simple_microkernel.Stub.Frames.{Frame}

-- The memory `m'` behind a fork, from the memory `m1` in which the frame was saved.
module _ (k : Kernel) (i f : ℕ) (h : HasStack k i f) (r : Registers)
    (regs : Frame k.process_manager.mem f r) (ret pid j : ℕ) (s' : ProcessManager)
    (born : Born (with_stack k i) i (stack k i) ret f pid j s') (fuel : ℕ)
    (current : get_current_process k.process_manager ≡ some (k.process_manager.slots i)) where
  abbrev m1 : Mem
  m1 = k.process_manager.mem

  abbrev m' : Mem
  m' = store32 s'.mem (f + 4) pid

  abbrev top : Ptr
  top = load32 (with_stack k i).mem (k.process_manager.slots i + 4)

  -- The child's frame and entry.
  abbrev pub place : Ptr
  place = stack k i + 12 + f + 16 - top

  abbrev entry : Ptr
  entry = k.process_manager.process_mem_manager.last_p + 9

  frame_word : (off : ℕ) → off + 4 ≤ 48 → load32 s'.mem (f + off) ≡ load32 m1 (f + off)
  frame_word off o =
      born.frame_kept off (omega arith)
      ∙ with_stack-word k i fuel f h current (f + off) (omega (arith, h.frame))

  parent_word :
      (off : ℕ) → off + 4 ≤ 48 → Apart off 4 4 4 → load32 m' (f + off) ≡ load32 m1 (f + off)
  parent_word off o a =
      load32-store32_ne s'.mem (f + 4) pid (f + off) (omega arith) ∙ frame_word off o

  child_word : (off : ℕ) → off + 4 ≤ 56 → load32 m' (place + off) ≡ load32 s'.mem (place + off)
  child_word off o =
      let l = h.can_fork.placed in
      load32-store32_ne s'.mem (f + 4) pid (place + off) (omega (arith, l.stacks, l.deep))

  pub parent-Frame : Frame m' f (record r { ebx = pid })
  parent-Frame = record {
    eax =
        ap (load32 m') (omega arith)
        ∙ parent_word 0 (omega arith) (omega arith)
        ∙ ap (load32 m1) (omega arith)
        ∙ regs.eax;
    ebx = load32-store32_self s'.mem (f + 4) pid ∙ omega (arith, born.number);
    ecx = parent_word 8 (omega arith) (omega arith) ∙ regs.ecx;
    edx = parent_word 12 (omega arith) (omega arith) ∙ regs.edx;
    esi = parent_word 16 (omega arith) (omega arith) ∙ regs.esi;
    edi = parent_word 20 (omega arith) (omega arith) ∙ regs.edi;
    ebp = parent_word 24 (omega arith) (omega arith) ∙ regs.ebp;
    ds = ap (λ v. v % 2 ^ 16) (parent_word 28 (omega arith) (omega arith)) ∙ regs.ds;
    eip = parent_word 36 (omega arith) (omega arith) ∙ regs.eip;
    cs = ap (λ v. v % 2 ^ 16) (parent_word 40 (omega arith) (omega arith)) ∙ regs.cs;
    eflags = parent_word 44 (omega arith) (omega arith) ∙ regs.eflags;
    esp = regs.esp;
  }

  copied_word :
      (off : ℕ)
      → off + 4 ≤ 48
      → load32 s'.mem (place + off) ≡ load32 (with_stack k i).mem (f + off)
      → load32 m' (place + off) ≡ load32 m1 (f + off)
  copied_word off o e =
      child_word off (omega arith)
      ∙ e
      ∙ with_stack-word k i fuel f h current (f + off) (omega (arith, h.frame))

  abbrev pub forked : Registers
  forked = record r {
    eax = 0;
    ebp = stack k i;
    ds = get_dss;
    eip = ret;
    cs = get_css;
    esp = place + 48;
  }

  pub child-Frame : Frame m' place forked
  child-Frame =
      let l = h.can_fork.placed in
      let fam = born.family in
      let (b, (c, (d, (si, (di, (_, (fl, _))))))) = fam.registers in
      record {
        eax = ap (load32 m') (omega arith) ∙ child_word 0 (omega arith) ∙ fam.eax;
        ebx = copied_word 4 (omega arith) b ∙ regs.ebx;
        ecx = copied_word 8 (omega arith) c ∙ regs.ecx;
        edx = copied_word 12 (omega arith) d ∙ regs.edx;
        esi = copied_word 16 (omega arith) si ∙ regs.esi;
        edi = copied_word 20 (omega arith) di ∙ regs.edi;
        ebp = child_word 24 (omega arith) ∙ fam.ebp;
        ds = ap (λ v. v % 2 ^ 16) (child_word 28 (omega arith) ∙ fam.ds);
        eip = child_word 36 (omega arith) ∙ fam.eip;
        cs = ap (λ v. v % 2 ^ 16) (child_word 40 (omega arith) ∙ fam.cs);
        eflags = copied_word 44 (omega arith) fl ∙ regs.eflags;
        esp = omega (arith, l.deep, l.top_word);
      }

  entry_word : (off : ℕ) → off + 4 ≤ 44 → load32 m' (entry + off) ≡ load32 s'.mem (entry + off)
  entry_word off o =
      let l = h.can_fork.placed in
      load32-store32_ne s'.mem (f + 4) pid (entry + off) (omega (arith, l.below_child, l.deep))

  slot_entry : s'.slots j ≡ entry
  unfolding set_slot
  slot_entry = rw (born.slots, eq→== j j refl) refl

  pub child-place : load32 m' (s'.slots j) ≡ place
  child-place = rw slot_entry (
      ap (load32 m') (omega arith)
      ∙ entry_word 0 (omega arith)
      ∙ ap (load32 s'.mem) (omega arith)
      ∙ born.family.cpu_state)

  pub child-ready : is_ready m' s'.slots j ≡ true
  unfolding is_ready
  child-ready =
      let same : load32 m' (s'.slots j + 20) ≡ load32 s'.mem (s'.slots j + 20) =
        rw slot_entry (entry_word 20 (omega arith)) in
      rw same born.ready
