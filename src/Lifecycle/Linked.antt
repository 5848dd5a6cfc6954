-- ===== src/Lifecycle/Linked.antt =====
-- The entries of a child and of its parent, as `fork_proc` links them.
use a_simple_microkernel.Prelude.{ℕ, ◌+◌, ◌^◌, ◌≤◌, ◌<◌, ◌≡◌, ◌∙◌, arith}
use a_simple_microkernel.Store.{Ptr, Mem, load8, load32, store8, store32}
use a_simple_microkernel.Store.Laws.{
  Apart, load32-lt, load32-store32_self, load32-store32_ne, load32-store8_ne, load8-store32_ne,
  load8-store8_ne,
}
use a_simple_microkernel.Process.{ready}

-- The stores of `link_child` before the stack is copied.
abbrev pub linked : Mem → (n p t cpu : Ptr) → Mem
linked m n p t cpu =
    let m1 = store32 (store32 m (n + 16) p) (n + 20) ready in
    let m2 = store32 m1 (n + 24) (load32 m1 (p + 28)) in
    let m3 = store32 m2 (p + 28) n in
    let m4 = store8 m3 (p + 32) (load8 m3 (p + 32) + 1) in
    let m5 = store32 m4 (n + 8) (load32 m4 (p + 8)) in store32 m5 (n + 4) (t + 12)

-- The entries of the child `n` and of its parent `p` before the stack is copied.
pub record Linked (m m' : Mem) (n p t : Ptr) : Type 0 where
  pub parent : load32 m' (n + 16) ≡ p
  pub stack : load32 m' (n + 4) ≡ t + 12
  pub stack_size : load32 m' (n + 8) ≡ load32 m (p + 8)
  pub sibling : load32 m' (n + 24) ≡ load32 m (p + 28)
  pub child : load32 m' (p + 28) ≡ n
  pub top : load32 m' (p + 4) ≡ load32 m (p + 4)
  pub kept : (a : Ptr) → Apart a 1 n 44 → Apart a 1 p 44 → load8 m' a ≡ load8 m a

module _ (m : Mem) (n p t cpu : Ptr) (apart : Apart n 44 p 44) (wn : n < 2 ^ 32) (wp : p < 2 ^ 32)
    (wt : t + 12 < 2 ^ 32) where
  abbrev m1 : Mem
  m1 = store32 (store32 m (n + 16) p) (n + 20) ready

  abbrev m2 : Mem
  m2 = store32 m1 (n + 24) (load32 m1 (p + 28))

  abbrev m3 : Mem
  m3 = store32 m2 (p + 28) n

  abbrev m4 : Mem
  m4 = store8 m3 (p + 32) (load8 m3 (p + 32) + 1)

  abbrev m5 : Mem
  m5 = store32 m4 (n + 8) (load32 m4 (p + 8))

  -- The fields of the parent before its child field are not written.
  parent_word1 : (off : ℕ) → off + 4 ≤ 44 → load32 m1 (p + off) ≡ load32 m (p + off)
  parent_word1 off h =
      load32-store32_ne (store32 m (n + 16) p) (n + 20) ready (p + off) (omega arith)
      ∙ load32-store32_ne m (n + 16) p (p + off) (omega arith)

  pub parent_word4 : (off : ℕ) → off + 4 ≤ 28 → load32 m4 (p + off) ≡ load32 m (p + off)
  parent_word4 off h =
      load32-store8_ne m3 (p + 32) _ (p + off) (omega arith)
      ∙ load32-store32_ne m2 (p + 28) n (p + off) (omega arith)
      ∙ load32-store32_ne m1 (n + 24) _ (p + off) (omega arith)
      ∙ parent_word1 off (omega arith)

  pub parent_word6 :
      (off : ℕ) → off + 4 ≤ 44 → load32 (linked m n p t cpu) (p + off) ≡ load32 m4 (p + off)
  parent_word6 off h =
      load32-store32_ne m5 (n + 4) (t + 12) (p + off) (omega arith)
      ∙ load32-store32_ne m4 (n + 8) _ (p + off) (omega arith)

  -- The fields of the child that are written before its stack.
  child_word :
      (off : ℕ)
      → 12 ≤ off
      → off + 4 ≤ 44
      → load32 (linked m n p t cpu) (n + off) ≡ load32 m2 (n + off)
  child_word off g h =
      load32-store32_ne m5 (n + 4) (t + 12) (n + off) (omega arith)
      ∙ load32-store32_ne m4 (n + 8) _ (n + off) (omega arith)
      ∙ load32-store8_ne m3 (p + 32) _ (n + off) (omega arith)
      ∙ load32-store32_ne m2 (p + 28) n (n + off) (omega arith)

  pub linked-Linked : Linked m (linked m n p t cpu) n p t
  linked-Linked = record {
    parent =
        child_word 16 (omega arith) (omega arith)
        ∙ load32-store32_ne m1 (n + 24) _ (n + 16) (omega arith)
        ∙ load32-store32_ne (store32 m (n + 16) p) (n + 20) ready (n + 16) (omega arith)
        ∙ load32-store32_self m (n + 16) p
        ∙ omega arith;
    stack = load32-store32_self m5 (n + 4) (t + 12) ∙ omega arith;
    stack_size =
        load32-store32_ne m5 (n + 4) (t + 12) (n + 8) (omega arith)
        ∙ load32-store32_self m4 (n + 8) (load32 m4 (p + 8))
        ∙ omega (arith, load32-lt m4 (p + 8), parent_word4 8 (omega arith));
    sibling =
        child_word 24 (omega arith) (omega arith)
        ∙ load32-store32_self m1 (n + 24) (load32 m1 (p + 28))
        ∙ omega (arith, load32-lt m1 (p + 28), parent_word1 28 (omega arith));
    child =
        parent_word6 28 (omega arith)
        ∙ load32-store8_ne m3 (p + 32) _ (p + 28) (omega arith)
        ∙ load32-store32_self m2 (p + 28) n
        ∙ omega arith;
    top = parent_word6 4 (omega arith) ∙ parent_word4 4 (omega arith);
    kept = λ a g h.
        load8-store32_ne m5 (n + 4) (t + 12) a (omega arith)
        ∙ load8-store32_ne m4 (n + 8) _ a (omega arith)
        ∙ load8-store8_ne m3 (p + 32) _ a (λ e. absurd (omega arith))
        ∙ load8-store32_ne m2 (p + 28) n a (omega arith)
        ∙ load8-store32_ne m1 (n + 24) _ a (omega arith)
        ∙ load8-store32_ne (store32 m (n + 16) p) (n + 20) ready a (omega arith)
        ∙ load8-store32_ne m (n + 16) p a (omega arith);
  }
