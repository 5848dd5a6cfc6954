-- ===== src/Stub/Fork.antt =====
-- `fork` from the calling process to both processes that it returns in.
use a_simple_microkernel.Prelude.{
  ℕ, suc, ◌+◌, ◌-◌, ◌%◌, ◌≡◌, sym, ap, ap₂, subst, ◌∙◌, true, Option, some, arith,
}
use a_simple_microkernel.Store.{null, load32}
use a_simple_microkernel.Ports.{Device}
use a_simple_microkernel.Gdt.{get_css, get_dss}
use a_simple_microkernel.ProcessManager.{is_ready}
use a_simple_microkernel.Lifecycle.{get_current_process}
use a_simple_microkernel.Lifecycle.Forking.{Born}
use a_simple_microkernel.Interrupts.{InterruptManager, World}
use a_simple_microkernel.Kernel.{Kernel}
use a_simple_microkernel.Kernel.Forks.{
  HasStack, with_stack, stack, with_stack-word, handle_interrupt-Born,
}
use a_simple_microkernel.Boot.Run.{Connected}
use a_simple_microkernel.Machine.{Machine, kernel_of}
use a_simple_microkernel.Machine.Reach.{table}
use a_simple_microkernel.Stub.{Registers, save, restore, request, fork}
use a_simple_microkernel.Stub.Calls.{entered, current-entered, request-served}
use a_simple_microkernel.Stub.Frames.{Fits, save-Frame, save-place, save-kept, restore-Frame}
use a_simple_microkernel.Stub.Copies.{parent-Frame, child-Frame, child-place, child-ready}

module _ {S : Type 0} (d : Device S) (fuel : ℕ) (m : InterruptManager) (n : Connected m) (ret i : ℕ)
    (r : Registers) (w : World (Machine S)) where
  -- The registers with which `fork` traps.
  abbrev pub forking : Registers
  forking = record r { eax = 2; ecx = ret }

  abbrev pub saved : Kernel
  saved = kernel_of (entered d (suc fuel) m n forking w)

  -- What the child has in the registers when it first goes on.
  abbrev pub copy : Registers
  copy = record forking {
    eax = 0;
    ebp = stack saved i;
    ds = get_dss;
    eip = ret;
    cs = get_css;
    esp = stack saved i + 28 + r.esp - load32 w.mem ((table w).slots i + 4);
  }

  -- The call returned `o` in the parent, with the number of the child, and the child in slot `j` is ready
  -- to go on with its copy of the registers.
  pub record Twice (o : Option (ℕ × Registers × World (Machine S))) (pid j : ℕ)
      (w' : World (Machine S)) : Type 0 where
    pub parent : o ≡ some (pid, record forking { ebx = pid }, w')
    pub child : restore w'.mem (load32 w'.mem ((table w').slots j)) ≡ copy
    pub ready : is_ready w'.mem (table w').slots j ≡ true
    pub free_slot : (table w).slots j ≡ null
    pub number : pid ≡ ((table w).last_pid + 1) % 256
    pub current : (table w').current_index ≡ (table w).current_index
    pub more : (table w').num_of_processes ≡ (table w).num_of_processes + 1

  -- When the process in slot `i`, in execution, calls `fork` with room for a frame, and there is memory
  -- for the child's stack and entry that overlaps nothing in use, `fork` returns twice. In the parent
  -- it returns the child's number, which is the next one in eight bits, in ebx too; the other
  -- registers are as they were when it trapped. The child is in a free slot, one process more, and is
  -- ready; what is restored from the frame that its entry records are the parent's registers but
  -- a zero eax, the return address as eip, the kernel's selectors, and the new stack in ebp and esp.
  -- The process in execution stays.
  pub fork-Twice :
      Fits forking
      → get_current_process (table w) ≡ some ((table w).slots i)
      → HasStack saved i (r.esp - 48)
      → (pid j : ℕ) × (w' : World (Machine S)) × Twice
          (fork (request d (suc fuel) m 0x80) ret r w)
          pid
          j
          w'
  unfolding fork
  fork-Twice fits current room =
      let f = (save forking w.mem).0 in
      let regs = save-Frame forking w.mem fits in
      let h : HasStack saved i f =
        subst (HasStack saved i) (sym (save-place forking w.mem fits)) room in
      let running = current-entered d (suc fuel) m n forking w ((table w).slots i) current in
      let (pid, j, s', run, born') = handle_interrupt-Born saved i fuel f h running regs.eax in
      let born : Born (with_stack saved i) i (stack saved i) ret f pid j s' =
        subst (λ v. Born (with_stack saved i) i (stack saved i) v f pid j s') regs.ecx born' in
      let (w', goes, mem, objects) = request-served d (suc fuel) m n forking w f _ run in
      let parent =
        restore-Frame _ f _
          (parent-Frame saved i f h forking regs ret pid j s' born fuel running) in
      let child =
        restore-Frame _ _ _ (child-Frame saved i f h forking regs ret pid j s' born fuel running) in
      let at = child-place saved i f h forking regs ret pid j s' born fuel running in
      let slots = ap (λ o. o.kernel.process_manager.slots) objects in
      let awake = child-ready saved i f h forking regs ret pid j s' born fuel running in
      let l = room.can_fork.placed in
      let entry = (table w).slots i + 4 in
      let top : load32 (with_stack saved i).mem entry ≡ load32 w.mem entry =
        with_stack-word saved i fuel f h running entry (omega (arith, h.entry))
        ∙ save-kept forking w.mem fits entry (omega (arith, l.below_parent, l.deep)) in
      (
        pid,
        j,
        w',
        record {
          parent =
              rw (goes, parent)
                (ap (λ v. some (v, record forking { ebx = pid }, w')) (omega (arith, born.number)));
          child =
              ap₂ (λ a sl. restore a (load32 a (sl j))) mem slots
              ∙ ap (restore _) at
              ∙ child
              ∙ ap (λ v. record copy { esp = v })
                  (omega (arith, top, l.room, save-place forking w.mem fits));
          ready = ap₂ (λ a sl. is_ready a sl j) mem slots ∙ awake;
          free_slot = born.free_slot;
          number = born.number;
          current = ap (λ o. o.kernel.process_manager.current_index) objects ∙ born.current;
          more = ap (λ o. o.kernel.process_manager.num_of_processes) objects ∙ born.more;
        },
      )
