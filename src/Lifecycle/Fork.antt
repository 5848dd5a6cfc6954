-- ===== src/Lifecycle/Fork.antt =====
-- The stack and the frame that `fork_proc` makes for a child.
use a_simple_microkernel.Prelude.{
  ℕ, ◌+◌, ◌-◌, ◌%◌, ◌^◌, ◌≤◌, ◌<◌, ◌≡◌, refl, ap, ◌∙◌, arith, List, [], ◌∷◌, All, lt→ltb,
}
use a_simple_microkernel.Store.{Ptr, Mem, load8, load32, store32}
use a_simple_microkernel.Store.Laws.{
  Apart, load32-lt, load32-store32_self, load32-store32_ne, load8-store32_ne,
}
use a_simple_microkernel.Gdt.{get_css, get_dss, get_sss}
use a_simple_microkernel.Process.{store_fields, sizeof_cpu_state}
use a_simple_microkernel.Process.Setup.{final, Aligned, load32-store_fields, load32-store_fields_ne}
use a_simple_microkernel.Lifecycle.{link_child, copy_stack, copy_struct}
use a_simple_microkernel.Lifecycle.Copy.{
  load32-eq, copy_stack_ne, copy_stack_lem, copy_struct_ne, copy_struct_lem,
}
use a_simple_microkernel.Lifecycle.Linked.{linked, Linked, linked-Linked}

-- The fields that are written to the frame of the child, behind the copy of the parent's.
abbrev frame_fields : (t ret : Ptr) → List (ℕ × ℕ)
frame_fields t ret =
    (40, get_css) ∷ (28, get_dss) ∷ (52, get_sss) ∷ (24, t) ∷ (48, 0) ∷ (36, ret) ∷ (0, 0) ∷ []

-- The memory of the child, before it is put into the table.
abbrev pub child_mem : Mem → (n p t cpu ret : Ptr) → Mem
child_mem m n p t cpu ret =
    let m1 = link_child m n p t cpu in
    let frame = load32 m1 n in
    store_fields (copy_struct sizeof_cpu_state m1 frame cpu) frame (frame_fields t ret)

-- The child `n` of `p` goes on at `ret` from the frame `f` with the registers that the parent has at
-- `cpu`, but eax, which is zero, and its own stack.
pub record Forked (m m' : Mem) (n p t cpu ret f : Ptr) : Type 0 where
  pub parent : load32 m' (n + 16) ≡ p
  pub child : load32 m' (p + 28) ≡ n
  pub sibling : load32 m' (n + 24) ≡ load32 m (p + 28)
  pub stack_size : load32 m' (n + 8) ≡ load32 m (p + 8)
  pub stack : load32 m' (n + 4) ≡ t + 12
  pub cpu_state : load32 m' n ≡ f
  pub eax : load32 m' (f + 0) ≡ 0
  pub eip : load32 m' (f + 36) ≡ ret
  pub ebp : load32 m' (f + 24) ≡ t
  pub cs : load32 m' (f + 40) ≡ get_css
  pub ds : load32 m' (f + 28) ≡ get_dss
  pub ss : load32 m' (f + 52) ≡ get_sss
  pub registers :
      All (λ off. load32 m' (f + off) ≡ load32 m (cpu + off)) (4 ∷ 8 ∷ 12 ∷ 16 ∷ 20 ∷ 32 ∷ 44 ∷ [])
  pub copied :
      (k : ℕ) → 0 < k → f + 56 + k ≤ t + 12 → load8 m' (t + 12 - k) ≡ load8 m (load32 m (p + 4) - k)

-- Where the child's entry, its parent's, the parent's stack from its frame `cpu` to its top, and the
-- child's copy of it are: no two of them overlap, and the parent's frame is right below the sixteen
-- bytes that the code does not copy.
pub record Placed (stack n p t cpu : Ptr) : Type 0 where
  pub child_word : n < 2 ^ 32
  pub parent_word : p < 2 ^ 32
  pub top_word : t + 12 < 2 ^ 32
  pub deep : cpu + 72 ≤ stack
  pub small : stack < cpu + 16 + 2 ^ 31
  pub room : stack ≤ t + 12 + cpu + 16
  pub entries : Apart n 44 p 44
  pub stack_child : Apart (t + 12 + cpu + 16 - stack) (stack - cpu - 16) n 44
  pub stack_parent : Apart (t + 12 + cpu + 16 - stack) (stack - cpu - 16) p 44
  pub stacks : Apart (t + 12 + cpu + 16 - stack) (stack - cpu - 16) cpu (stack - cpu)
  pub below_child : Apart cpu (stack - cpu) n 44
  pub below_parent : Apart cpu (stack - cpu) p 44

load8-store_fields_ne :
    (m : Mem) (p a : ℕ) (fields : List (ℕ × ℕ))
    → All (λ (o, _). Apart a 1 (p + o) 4) fields
    → load8 (store_fields m p fields) a ≡ load8 m a
unfolding store_fields
load8-store_fields_ne m p a [] w = refl
load8-store_fields_ne m p a ((o, v) ∷ fields) (w, ws) =
    load8-store_fields_ne (store32 m (p + o) v) p a fields ws ∙ load8-store32_ne m (p + o) v a w

module _ (m : Mem) (n p t cpu ret : Ptr) (l : Placed (load32 m (p + 4)) n p t cpu)
    (wr : ret < 2 ^ 32) where
  abbrev stack : Ptr
  stack = load32 m (p + 4)

  abbrev pub used : ℕ
  used = stack - cpu - 16

  abbrev top : Ptr
  top = t + 12

  abbrev pub frame : Ptr
  frame = t + 12 + cpu + 16 - stack

  abbrev m6 : Mem
  m6 = linked m n p t cpu

  abbrev m7 : Mem
  m7 = store32 m6 n frame

  abbrev m8 : Mem
  m8 = copy_stack used m7 top stack

  facts : Linked m m6 n p t
  facts = linked-Linked m n p t cpu l.entries l.child_word l.parent_word l.top_word

  link_child-eq : link_child m n p t cpu ≡ m8
  unfolding link_child
  link_child-eq =
      let e : (stack + 2 ^ 33 - cpu - 16) % 2 ^ 32 ≡ used =
        omega (arith, l.deep, load32-lt m (p + 4)) in
      let f : (top + 2 ^ 32 - used) % 2 ^ 32 ≡ frame = omega (arith, l.deep, l.room, l.top_word) in
      rw
        (
          facts.top,
          facts.stack,
          e,
          lt→ltb used (2 ^ 31) (omega (arith, l.small)),
          f,
          load32-store32_ne m6 n frame (p + 4) (omega (arith, l.entries)),
          facts.top,
        )
        refl

  m8_byte : (a : Ptr) → Apart a 1 frame used → load8 m8 a ≡ load8 m7 a
  m8_byte a h =
      copy_stack_ne top stack l.top_word (load32-lt m (p + 4)) used m7 a
        (omega (arith, l.deep, l.room)) (omega (arith, l.deep, l.room))

  m8_word : (a : Ptr) → Apart a 4 frame used → load32 m8 a ≡ load32 m7 a
  m8_word a h = load32-eq m8 m7 a a (λ k lt. m8_byte (a + k) (omega arith))

  m8_frame : load32 m8 n ≡ frame
  m8_frame =
      m8_word n (omega (arith, l.stack_child))
      ∙ load32-store32_self m6 n frame
      ∙ omega (arith, l.deep, l.top_word)

  abbrev m9 : Mem
  m9 = copy_struct sizeof_cpu_state m8 frame cpu

  abbrev pub m10 : Mem
  m10 = store_fields m9 frame (frame_fields t ret)

  pub child_mem-eq : child_mem m n p t cpu ret ≡ m10
  child_mem-eq = rw (link_child-eq, m8_frame) refl

  m10_byte : (a : Ptr) → Apart a 1 frame 56 → load8 m10 a ≡ load8 m8 a
  m10_byte a h =
      load8-store_fields_ne m9 frame a (frame_fields t ret) (omega arith)
      ∙ copy_struct_ne 56 m8 frame cpu a (omega arith)

  -- A word outside the child's stack.
  pub m10_word : (a : Ptr) → Apart a 4 frame used → load32 m10 a ≡ load32 m7 a
  m10_word a h =
      load32-eq m10 m7 a a
        (λ k lt. m10_byte (a + k) (omega (arith, l.deep)) ∙ m8_byte (a + k) (omega arith))

  child_field : (off : ℕ) → 4 ≤ off → off + 4 ≤ 44 → load32 m10 (n + off) ≡ load32 m6 (n + off)
  child_field off g h =
      m10_word (n + off) (omega (arith, l.stack_child))
      ∙ load32-store32_ne m6 n frame (n + off) (omega arith)

  pub parent_field : (off : ℕ) → off + 4 ≤ 44 → load32 m10 (p + off) ≡ load32 m6 (p + off)
  parent_field off h =
      m10_word (p + off) (omega (arith, l.stack_parent))
      ∙ load32-store32_ne m6 n frame (p + off) (omega (arith, l.entries))

  -- The parent's stack from its frame on is not written before it is copied.
  old_byte : (a : Ptr) → cpu ≤ a → a < stack → load8 m7 a ≡ load8 m a
  old_byte a g h =
      load8-store32_ne m6 n frame a (omega (arith, l.below_child))
      ∙ facts.kept a (omega (arith, l.below_child)) (omega (arith, l.below_parent))

  -- The parent's stack from its frame on is not written.
  pub frame_word-kept : (a : Ptr) → cpu ≤ a → a + 4 ≤ stack → load32 m10 a ≡ load32 m a
  frame_word-kept a g h =
      m10_word a (omega (arith, l.stacks, l.deep))
      ∙ load32-eq m7 m a a (λ k lt. old_byte (a + k) (omega arith) (omega arith))

  m9_register : (off : ℕ) → off + 4 ≤ 56 → load32 m9 (frame + off) ≡ load32 m (cpu + off)
  m9_register off h = load32-eq m9 m (frame + off) (cpu + off) (λ k lt.
      ap (load8 m9) (omega arith)
      ∙ copy_struct_lem 56 m8 frame cpu (off + k) (omega (arith, l.stacks, l.deep)) (omega arith)
      ∙ m8_byte (cpu + (off + k)) (omega (arith, l.stacks, l.deep))
      ∙ old_byte (cpu + (off + k)) (omega arith) (omega (arith, l.deep))
      ∙ ap (load8 m) (omega arith))

  frame_word :
      (off : ℕ)
      → Aligned off (frame_fields t ret)
      → load32 m10 (frame + off) ≡ final (load32 m9 (frame + off)) off (frame_fields t ret)
  frame_word off a = load32-store_fields m9 frame off (frame_fields t ret) a

  register :
      (off : ℕ)
      → off + 4 ≤ 56
      → All (λ (o, _). Apart off 4 o 4) (frame_fields t ret)
      → load32 m10 (frame + off) ≡ load32 m (cpu + off)
  register off h w =
      load32-store_fields_ne m9 frame (frame + off) (frame_fields t ret) (omega arith)
      ∙ m9_register off h

  m10_copied : (k : ℕ) → 0 < k → frame + 56 + k ≤ top → load8 m10 (top - k) ≡ load8 m (stack - k)
  m10_copied k pos_ le =
      m10_byte (top - k) (omega arith)
      ∙ copy_stack_lem top stack l.top_word (load32-lt m (p + 4)) used m7 k
          (omega (arith, l.deep, l.room)) (omega (arith, l.deep))
          (omega (arith, l.stacks, l.deep, l.room)) pos_ (omega (arith, l.deep, l.room))
      ∙ old_byte (stack - k) (omega (arith, l.deep, l.room)) (omega (arith, l.deep))

  pub m10-Forked : Forked m m10 n p t cpu ret frame
  m10-Forked = record {
    parent = child_field 16 (omega arith) (omega arith) ∙ facts.parent;
    child = parent_field 28 (omega arith) ∙ facts.child;
    sibling = child_field 24 (omega arith) (omega arith) ∙ facts.sibling;
    stack_size = child_field 8 (omega arith) (omega arith) ∙ facts.stack_size;
    stack = child_field 4 (omega arith) (omega arith) ∙ facts.stack;
    cpu_state =
        m10_word n (omega (arith, l.stack_child))
        ∙ load32-store32_self m6 n frame
        ∙ omega (arith, l.deep, l.top_word);
    eax = frame_word 0 (omega arith);
    eip = frame_word 36 (omega arith) ∙ omega arith;
    ebp = frame_word 24 (omega arith) ∙ omega (arith, l.top_word);
    cs = frame_word 40 (omega arith);
    ds = frame_word 28 (omega arith);
    ss = frame_word 52 (omega arith);
    registers = (
      register 4 (omega arith) (omega arith),
      (
        register 8 (omega arith) (omega arith),
        (
          register 12 (omega arith) (omega arith),
          (
            register 16 (omega arith) (omega arith),
            (
              register 20 (omega arith) (omega arith),
              (
                register 32 (omega arith) (omega arith),
                (register 44 (omega arith) (omega arith), tt),
              ),
            ),
          ),
        ),
      ),
    );
    copied = m10_copied;
  }
