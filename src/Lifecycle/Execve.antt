-- ===== src/Lifecycle/Execve.antt =====
-- The frame that `execve_proc` makes.
use a_simple_microkernel.Prelude.{
  ℕ, ◌+◌, ◌-◌, ◌%◌, ◌^◌, ◌≤◌, ◌<◌, ◌≡◌, ◌∙◌, List, [], ◌∷◌, All, arith,
}
use a_simple_microkernel.Store.{Ptr, Mem, load32, store32}
use a_simple_microkernel.Store.Laws.{Apart, load32-lt, load32-store32_self, load32-store32_ne}
use a_simple_microkernel.Gdt.{get_css, get_dss}
use a_simple_microkernel.Process.{store_fields, sizeof_cpu_state}
use a_simple_microkernel.Process.Setup.{final, Aligned, load32-store_fields, load32-store_fields_ne}
use a_simple_microkernel.ProcessManager.{ProcessManager}
use a_simple_microkernel.Lifecycle.{execve_proc}

-- The process `this` will go on at `entry`, with `argv` where its first argument is, from the frame
-- `f` at the top of its stack.
pub record Entered (m m' : Mem) (this argv entry f : ℕ) : Type 0 where
  pub top : f + 56 ≡ load32 m (this + 4)
  pub cpu_state : load32 m' (this + 0) ≡ f
  pub eip : load32 m' (f + 36) ≡ entry
  pub argument : load32 m' (f + 52) ≡ argv
  pub cs : load32 m' (f + 40) ≡ get_css
  pub ds : load32 m' (f + 28) ≡ get_dss
  pub eflags : load32 m' (f + 44) ≡ 0x202
  pub ebp : load32 m' (f + 24) ≡ load32 m (this + 4)
  pub eax : load32 m' (f + 0) ≡ 0
  pub registers : All (λ off. load32 m' (f + off) ≡ 0) (4 ∷ 8 ∷ 12 ∷ 16 ∷ 20 ∷ [])
  pub return_address : load32 m' (f + 48) ≡ 0
  pub rest : (off : ℕ) → 4 ≤ off → off + 4 ≤ 44 → load32 m' (this + off) ≡ load32 m (this + off)

module _ (s : ProcessManager) (this argv e : Ptr) (fits : 56 ≤ load32 s.mem (this + 4))
    (entry : e < 2 ^ 32) (word : argv < 2 ^ 32)
    (apart : Apart this 44 (load32 s.mem (this + 4) - 56) 56) where
  abbrev stack : ℕ
  stack = load32 s.mem (this + 4)

  abbrev frame : ℕ
  frame = (stack + 2 ^ 32 - sizeof_cpu_state) % 2 ^ 32

  abbrev words : List (ℕ × ℕ)
  words =
      (40, get_css)
      ∷ (28, get_dss)
      ∷ (52, argv)
      ∷ (0, 0)
      ∷ (4, 0)
      ∷ (8, 0)
      ∷ (12, 0)
      ∷ (16, 0)
      ∷ (20, 0)
      ∷ (24, stack)
      ∷ (48, 0)
      ∷ (36, e)
      ∷ (44, 0x202)
      ∷ []

  abbrev m1 : Mem
  m1 = store32 s.mem (this + 0) frame

  frame_lem : frame ≡ stack - 56
  frame_lem = omega (arith, load32-lt s.mem (this + 4))

  entry-kept :
      (off : ℕ)
      → off + 4 ≤ 44
      → load32 (store_fields m1 frame words) (this + off) ≡ load32 m1 (this + off)
  entry-kept off h = load32-store_fields_ne m1 frame (this + off) words (omega (arith, frame_lem))

  frame-word :
      (off : ℕ)
      → Aligned off words
      → load32 (store_fields m1 frame words) (frame + off)
        ≡ final (load32 m1 (frame + off)) off words
  frame-word off a = load32-store_fields m1 frame off words a

  -- Where the entry of a process and the 56 bytes below its stack pointer are apart, `execve_proc`
  -- returns the frame there: the process will go on at the entry point with the parameters where a
  -- function finds its argument, interrupts enabled and eax zero. In the entry only the pointer to
  -- the frame changes.
  pub execve_proc-Entered :
      let (f, s') = execve_proc s this argv e in Entered s.mem s'.mem this argv e f
  unfolding execve_proc
  execve_proc-Entered = record {
    top = omega (arith, frame_lem);
    cpu_state =
        entry-kept 0 (omega arith) ∙ load32-store32_self s.mem (this + 0) frame ∙ omega arith;
    eip = frame-word 36 (omega arith) ∙ omega arith;
    argument = frame-word 52 (omega arith) ∙ omega arith;
    cs = frame-word 40 (omega arith);
    ds = frame-word 28 (omega arith);
    eflags = frame-word 44 (omega arith);
    ebp = frame-word 24 (omega arith) ∙ omega (arith, load32-lt s.mem (this + 4));
    eax = frame-word 0 (omega arith);
    registers = (
      frame-word 4 (omega arith),
      (
        frame-word 8 (omega arith),
        (
          frame-word 12 (omega arith),
          (frame-word 16 (omega arith), (frame-word 20 (omega arith), tt)),
        ),
      ),
    );
    return_address = frame-word 48 (omega arith);
    rest = λ off g l.
        entry-kept off l ∙ load32-store32_ne s.mem (this + 0) frame (this + off) (omega arith);
  }
