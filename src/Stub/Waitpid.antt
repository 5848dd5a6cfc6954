-- ===== src/Stub/Waitpid.antt =====
-- `waitpid` from the registers of the calling process back to them.
use a_simple_microkernel.Prelude.{
  ℕ, Bool, ◌+◌, ◌-◌, ◌%◌, ◌^◌, ◌≤◌, ◌<◌, ◌≡◌, refl, sym, ap, ap₂, ◌∙◌, some, List, [], ◌∷◌, ◌++◌,
  length, All, All-map, All-prefix, All-suffix, arith, subst,
}
use a_simple_microkernel.Store.{Ptr, Mem, load8, load32, store32}
use a_simple_microkernel.Store.Laws.{Apart, load8-lt, load32-store32_self, load32-store32_ne}
use a_simple_microkernel.Store.Chain.{Away, before, since, before-append-since, Chain, Separate}
use a_simple_microkernel.Ports.{Device}
use a_simple_microkernel.Process.{matches}
use a_simple_microkernel.Process.Receive.{Queue}
use a_simple_microkernel.Lifecycle.{get_current_process}
use a_simple_microkernel.Interrupts.{InterruptManager, World}
use a_simple_microkernel.Kernel.{Kernel, with_mem}
use a_simple_microkernel.Kernel.Calls.{handle_interrupt-waitpid_none}
use a_simple_microkernel.Kernel.Waitpid.{Laid, handle_interrupt-waitpid_found}
use a_simple_microkernel.Boot.Run.{Connected}
use a_simple_microkernel.Machine.{Machine, kernel_of}
use a_simple_microkernel.Machine.Reach.{table}
use a_simple_microkernel.Stub.{Registers, save, restore, request, waitpid}
use a_simple_microkernel.Stub.Calls.{entered, current-entered, request-served}
use a_simple_microkernel.Stub.Frames.{Fits, save-Frame, save-place, answered-Frame, restore-Frame}

-- The messages `xs` to the process at `p`, the free chunks `fl`, the head of the queue and the frame
-- at `f` are at distinct places.
pub record Clear (f p : Ptr) (xs fl : List Ptr) : Type 0 where
  pub objects : Separate 12 (xs ++ fl)
  pub entry : All (λ x. Apart x 12 (p + 36) 4) (xs ++ fl)
  pub frame : All (λ x. Apart x 12 f 48) (xs ++ fl)
  pub head : Apart (p + 36) 4 f 48

Clear-Laid : (f p : Ptr) (xs fl : List Ptr) → Clear f p xs fl → Laid f p xs fl
Clear-Laid f p xs fl c = record {
  objects = c.objects;
  entry = c.entry;
  frame =
      All-map (λ x. Apart x 12 f 48) (λ x. Apart x 12 (f + 12) 4) (λ x h. omega arith) xs
        (All-prefix (λ x. Apart x 12 f 48) xs fl c.frame);
  head = let h = c.head in omega arith;
}

module _ (m m' : Mem) (f p : Ptr) (xs fl ys : List Ptr) (t : Ptr) (zs : List Ptr)
    (c : Clear f p xs fl) (split : ys ++ t ∷ zs ≡ xs)
    (kept : (b : Ptr)
      → Apart b 4 (p + 36) 4
      → Away 8 b xs
      → Apart b 4 (t + 4) 4
      → Away 4 b fl
      → Apart b 4 (f + 12) 4
      → load32 m' b ≡ load32 m b) where
  message : Apart t 12 f 48
  message =
      (All-suffix (λ x. Apart x 12 f 48) ys (t ∷ zs)
        (subst (All (λ x. Apart x 12 f 48)) (sym split)
          (All-prefix (λ x. Apart x 12 f 48) xs fl c.frame))).0

  -- The words of the frame but edx.
  word-kept : (off : ℕ) → off + 4 ≤ 48 → Apart off 4 12 4 → load32 m' (f + off) ≡ load32 m (f + off)
  word-kept off h o =
      let far = message in
      let head = c.head in
      kept (f + off) (omega arith)
        (All-map (λ x. Apart x 12 f 48) (λ x. Apart (x + 8) 4 (f + off) 4) (λ x g. omega arith) xs
          (All-prefix (λ x. Apart x 12 f 48) xs fl c.frame))
        (omega arith)
        (All-map (λ x. Apart x 12 f 48) (λ x. Apart (x + 4) 4 (f + off) 4) (λ x g. omega arith) fl
          (All-suffix (λ x. Apart x 12 f 48) xs fl c.frame))
        (omega arith)

-- The registers with which `waitpid` traps.
abbrev pub asking : (pid status : ℕ) → Registers → Registers
asking pid status r = record r { eax = 7; ebx = pid % 2 ^ 16; ecx = status }

module _ {S : Type 0} (d : Device S) (fuel : ℕ) (m : InterruptManager) (n : Connected m)
    (pid status : ℕ) (r : Registers) (w : World (Machine S)) (p : Ptr)
    (fits : Fits (asking pid status r)) (current : get_current_process (table w) ≡ some p) where
  abbrev m1 : Mem
  m1 = (save (asking pid status r) w.mem).1

  abbrev f : Ptr
  f = (save (asking pid status r) w.mem).0

  abbrev k : Kernel
  k = kernel_of (entered d fuel m n (asking pid status r) w)

  abbrev test : Ptr → Bool
  test = matches m1 status (pid % 2 ^ 16)

  same_test : matches m1 (load32 m1 (f + 8)) (load32 m1 (f + 4) % 2 ^ 16) ≡ test
  same_test =
      let regs = save-Frame (asking pid status r) w.mem fits in
      ap₂ (matches m1) regs.ecx (ap (λ v. v % 2 ^ 16) regs.ebx ∙ omega arith)

  -- When no message fits, `waitpid` returns -1 at once, in the registers too, and the registers are
  -- otherwise as they were when it trapped. Beside the frame no memory is written.
  pub waitpid-none :
      (xs : List Ptr)
      → Queue m1 p xs
      → length xs < fuel
      → since test xs ≡ []
      → (w' : World (Machine S)) × (waitpid (request d fuel m 0x80) pid status r w
          ≡ some (65535, record (asking pid status r) { edx = 2 ^ 32 - 1 }, w'))
        × (w'.mem ≡ store32 m1 (f + 12) (2 ^ 32 - 1))
        × (table w'
            ≡ record (table w) { mem = store32 m1 (f + 12) (2 ^ 32 - 1); screen = w'.screen })
  unfolding waitpid
  waitpid-none xs q few e =
      let r1 = asking pid status r in
      let v = 2 ^ 32 - 1 in
      let regs = save-Frame r1 w.mem fits in
      let m' = store32 m1 (f + 12) v in
      let run =
        handle_interrupt-waitpid_none fuel k f p (current-entered d fuel m n r1 w p current) xs
          regs.eax q few (subst (λ g. since g xs ≡ []) (sym same_test) e) in
      let (w', goes, mem, objects) = request-served d fuel m n r1 w f (with_mem k m') run in
      let edx : load32 m' (f + 12) ≡ v = load32-store32_self m1 (f + 12) v ∙ omega arith in
      let back : restore m' f ≡ record r1 { edx = v } =
        restore-Frame m' f (record r1 { edx = v })
          (answered-Frame m1 m' f
            (λ off h o. load32-store32_ne m1 (f + 12) v (f + off) (omega arith)) r1 v regs edx) in
      (
        w',
        rw (goes, back) refl,
        mem,
        ap₂ (λ o a. record o.kernel.process_manager { mem = a; screen = w'.screen }) objects mem,
      )

  -- When a message to the process in execution has the state `status` and the sender `pid` (-1 stands
  -- for any), `waitpid` returns the sender of the first such message, in edx too; the other registers
  -- are as they were when it trapped, and the queue is the other messages in order. The queue and the
  -- free list of the memory for processes are well linked and the fuel greater than their lengths,
  -- and the messages, the free chunks, the head of the queue and the frame are at distinct places.
  pub waitpid-found :
      (xs fl : List Ptr) (t : Ptr) (zs : List Ptr)
      → Queue m1 p xs
      → Chain 4 m1 (table w).process_mem_manager.free_list fl
      → Clear (r.esp - 48) p xs fl
      → length xs < fuel
      → length fl < fuel
      → since test xs ≡ t ∷ zs
      → (w' : World (Machine S)) × (waitpid (request d fuel m 0x80) pid status r w
          ≡ some (load8 m1 (t + 4), record (asking pid status r) { edx = load8 m1 (t + 4) }, w'))
        × Chain 8 w'.mem (load32 w'.mem (p + 36)) (before test xs ++ zs)
  unfolding waitpid
  waitpid-found xs fl t zs q chunks clear few few' e =
      let r1 = asking pid status r in
      let v = load8 m1 (t + 4) in
      let regs = save-Frame r1 w.mem fits in
      let clear' = subst (λ a. Clear a p xs fl) (sym (save-place r1 w.mem fits)) clear in
      let (k', run, edx, queue, kept) =
        handle_interrupt-waitpid_found fuel k f p xs fl t zs
          (current-entered d fuel m n r1 w p current) regs.eax q chunks
          (Clear-Laid f p xs fl clear') few few'
          (subst (λ g. since g xs ≡ t ∷ zs) (sym same_test) e) in
      let m' = k'.process_manager.mem in
      let split : before test xs ++ t ∷ zs ≡ xs = rw (← e) (before-append-since test xs) in
      let (w', goes, mem, _) = request-served d fuel m n r1 w f k' run in
      let back : restore m' f ≡ record r1 { edx = v } =
        restore-Frame m' f (record r1 { edx = v })
          (answered-Frame m1 m' f
            (word-kept m1 m' f p xs fl (before test xs) t zs clear' split kept) r1 v regs edx) in
      let small : v % 2 ^ 16 ≡ v = omega (arith, load8-lt m1 (t + 4)) in
      (
        w',
        rw (goes, back, small) refl,
        subst (λ a. Chain 8 a (load32 a (p + 36)) (before test xs ++ zs)) (sym mem)
            (subst (λ g. Chain 8 m' (load32 m' (p + 36)) (before g xs ++ zs)) same_test queue),
      )
