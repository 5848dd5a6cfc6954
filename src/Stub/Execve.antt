-- ===== src/Stub/Execve.antt =====
-- `execve` from the calling process to the first instruction of the function.
use a_simple_microkernel.Prelude.{
  ℕ, ◌+◌, ◌-◌, ◌%◌, ◌^◌, ◌≤◌, ◌≡◌, sym, ap, ◌∙◌, some, [], ◌∷◌, All, arith, subst,
}
use a_simple_microkernel.Store.{Ptr, Mem, load32}
use a_simple_microkernel.Store.Laws.{Apart, load32-lt}
use a_simple_microkernel.Ports.{Device}
use a_simple_microkernel.Gdt.{get_css, get_dss}
use a_simple_microkernel.Lifecycle.{get_current_process}
use a_simple_microkernel.Lifecycle.Execve.{Entered}
use a_simple_microkernel.Interrupts.{InterruptManager, World}
use a_simple_microkernel.Kernel.Calls.{handle_interrupt-Entered}
use a_simple_microkernel.Boot.Run.{Connected}
use a_simple_microkernel.Machine.{Machine, kernel_of}
use a_simple_microkernel.Machine.Reach.{table}
use a_simple_microkernel.Stub.{Registers, save, restore, request, execve}
use a_simple_microkernel.Stub.Calls.{entered, current-entered, request-served}
use a_simple_microkernel.Stub.Frames.{Fits, save-Frame, save-kept}

-- The process begins `func` as a call of it from nowhere would: its argument stands on the stack
-- behind a null return address, and the other registers are zero.
pub record Calls (m : Mem) (top func argv : ℕ) (r : Registers) : Type 0 where
  pub eip : r.eip ≡ func
  pub esp : r.esp + 8 ≡ top
  pub return_address : load32 m r.esp ≡ 0
  pub argument : load32 m (r.esp + 4) ≡ argv
  pub ebp : r.ebp ≡ top
  pub registers : All (λ v. v ≡ 0) (r.eax ∷ r.ebx ∷ r.ecx ∷ r.edx ∷ r.esi ∷ r.edi ∷ [])
  pub cs : r.cs ≡ get_css
  pub ds : r.ds ≡ get_dss
  pub eflags : r.eflags ≡ 0x202

restore-Calls :
    (m m' : Mem) (this func argv f : ℕ)
    → Entered m m' this argv func f
    → Calls m' (load32 m (this + 4)) func argv (restore m' f)
unfolding restore
restore-Calls m m' this func argv f e =
    let place : (f + 48) % 2 ^ 32 ≡ f + 48 = omega (arith, e.top, load32-lt m (this + 4)) in
    let (b, (c, (d, (s, (t, _))))) = e.registers in
    record {
      eip = e.eip;
      esp = omega (arith, e.top, place);
      return_address = ap (load32 m') place ∙ e.return_address;
      argument = ap (λ a. load32 m' (a + 4)) place ∙ ap (load32 m') (omega arith) ∙ e.argument;
      ebp = e.ebp;
      registers = (ap (load32 m') (omega arith) ∙ e.eax, (b, (c, (d, (s, (t, tt))))));
      cs = ap (λ v. v % 2 ^ 16) e.cs;
      ds = ap (λ v. v % 2 ^ 16) e.ds;
      eflags = e.eflags;
    }

module _ {S : Type 0} (d : Device S) (fuel : ℕ) (m : InterruptManager) (n : Connected m) where
  -- When the process in execution calls `execve` on words, with room for a frame on its stack, it goes
  -- on at the first instruction of `func`, as if called with the argument `argv`, at the top of
  -- its stack, where its entry is apart from the two frames.
  pub execve-Calls :
      (func argv : ℕ) (r : Registers) (w : World (Machine S)) (p : Ptr)
      → Fits (record r { eax = 11; ebx = func; ecx = argv })
      → get_current_process (table w) ≡ some p
      → 56 ≤ load32 w.mem (p + 4)
      → Apart p 44 (load32 w.mem (p + 4) - 56) 56
      → Apart p 44 (r.esp - 48) 48
      → (r' : Registers) × (w' : World (Machine S)) × (execve (request d fuel m 0x80) func argv r w
          ≡ some (r', w'))
        × Calls w'.mem (load32 w.mem (p + 4)) func argv r'
  unfolding execve
  execve-Calls func argv r w p fits current room top frame =
      let r1 = record r { eax = 11; ebx = func; ecx = argv } in
      let k = kernel_of (entered d fuel m n r1 w) in
      let m1 = (save r1 w.mem).1 in
      let at = (save r1 w.mem).0 in
      let regs = save-Frame r1 w.mem fits in
      let same : load32 m1 (p + 4) ≡ load32 w.mem (p + 4) =
        save-kept r1 w.mem fits (p + 4) (omega arith) in
      let (f, k', run, e) =
        handle_interrupt-Entered fuel k at p (current-entered d fuel m n r1 w p current) regs.eax
          (omega (arith, same)) (omega (arith, same)) in
      let (w', goes, mem, _) = request-served d fuel m n r1 w f k' run in
      let c =
        restore-Calls m1 k'.process_manager.mem p (load32 m1 (at + 4)) (load32 m1 (at + 8)) f e in
      let r' = restore k'.process_manager.mem f in
      (
        r',
        w',
        goes,
        subst (λ X. X) (λ i. Calls (sym mem i) (same i) (regs.ebx i) (regs.ecx i) r') c,
      )
