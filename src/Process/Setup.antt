-- ===== src/Process/Setup.antt =====
-- `Process::setup`: the entry and the frame that a new process starts from.
use a_simple_microkernel.Prelude.{
  ℕ, ◌+◌, ◌-◌, ◌%◌, ◌^◌, ◌≤◌, ◌<◌, ◌≡◌, refl, ap, ne→==, eq→==, ◌∙◌, List, [], ◌∷◌, arith, ◌⊎◌,
  if◌then◌else◌, ◌==◌, inl, inr, All,
}
use a_simple_microkernel.Store.{Mem, load32, store32}
use a_simple_microkernel.Store.Laws.{Apart, load32-store32_self, load32-store32_ne}
use a_simple_microkernel.Gdt.{get_css, get_dss, get_sss}
use a_simple_microkernel.Process.{store_fields, setup, sizeof_cpu_state}

-- The last value that is written to the word at `off`, if any.
abbrev pub final : ℕ → ℕ → List (ℕ × ℕ) → ℕ
final old off [] = old
final old off ((o, v) ∷ fields) = final (if o == off then v % 2 ^ 32 else old) off fields

-- Words are written apart or at the same place.
abbrev pub Aligned : ℕ → List (ℕ × ℕ) → Type 0
Aligned off fields = All (λ (o, _). (o ≡ off) ⊎ Apart off 4 o 4) fields

pub load32-store_fields :
    (m : Mem) (p off : ℕ) (fields : List (ℕ × ℕ))
    → Aligned off fields
    → load32 (store_fields m p fields) (p + off) ≡ final (load32 m (p + off)) off fields
unfolding store_fields
load32-store_fields m p off [] a = refl
load32-store_fields m p off ((o, v) ∷ fields) (a, as') =
    load32-store_fields (store32 m (p + o) v) p off fields as'
    ∙ ap (λ t. final t off fields) (one a)
  where
    one :
        (o ≡ off) ⊎ Apart off 4 o 4
        → load32 (store32 m (p + o) v) (p + off)
          ≡ (if o == off then v % 2 ^ 32 else load32 m (p + off))
    one (inl e) = rw (e, eq→== off off refl) (load32-store32_self m (p + off) v)
    one (inr h) =
        rw (ne→== o off (omega arith)) (load32-store32_ne m (p + o) v (p + off) (omega arith))

pub load32-store_fields_ne :
    (m : Mem) (p a : ℕ) (fields : List (ℕ × ℕ))
    → All (λ (o, _). Apart a 4 (p + o) 4) fields
    → load32 (store_fields m p fields) a ≡ load32 m a
unfolding store_fields
load32-store_fields_ne m p a [] w = refl
load32-store_fields_ne m p a ((o, v) ∷ fields) (w, ws) =
    load32-store_fields_ne (store32 m (p + o) v) p a fields ws ∙ load32-store32_ne m (p + o) v a w

-- The words of a process entry that starts at `t_entry_point`, and those of its frame at `f`.
pub record Started (m m' : Mem) (this e stack_p size f : ℕ) : Type 0 where
  pub state : load32 m' (this + 20) ≡ 1
  pub stack : load32 m' (this + 4) ≡ stack_p
  pub stack_size : load32 m' (this + 8) ≡ size
  pub cpu_state : load32 m' (this + 0) ≡ f
  pub eip : load32 m' (f + 36) ≡ e
  pub cs : load32 m' (f + 40) ≡ get_css
  pub ds : load32 m' (f + 28) ≡ get_dss
  pub ss : load32 m' (f + 52) ≡ get_sss
  pub eflags : load32 m' (f + 44) ≡ 0x202
  pub ebp : load32 m' (f + 24) ≡ stack_p
  pub eax : load32 m' (f + 0) ≡ 0
  pub parent : load32 m' (this + 16) ≡ load32 m (this + 16)
  pub sibling : load32 m' (this + 24) ≡ load32 m (this + 24)
  pub child : load32 m' (this + 28) ≡ load32 m (this + 28)
  pub head : load32 m' (this + 36) ≡ load32 m (this + 36)

module _ (m : Mem) (this e stack_p size : ℕ) (fits : 56 ≤ stack_p) (word : stack_p < 2 ^ 32)
    (entry : e < 2 ^ 32) (small : size < 2 ^ 32) (apart : Apart this 44 (stack_p - 56) 56) where
  abbrev frame : ℕ
  frame = (stack_p + 2 ^ 32 - sizeof_cpu_state) % 2 ^ 32

  abbrev object : List (ℕ × ℕ)
  object = (20, 1) ∷ (8, size) ∷ (4, stack_p) ∷ (0, frame) ∷ []

  abbrev words : List (ℕ × ℕ)
  words =
      (40, get_css)
      ∷ (28, get_dss)
      ∷ (52, get_sss)
      ∷ (0, 0)
      ∷ (4, 0)
      ∷ (8, 0)
      ∷ (12, 0)
      ∷ (16, 0)
      ∷ (20, 0)
      ∷ (24, stack_p)
      ∷ (48, 0)
      ∷ (36, e)
      ∷ (44, 0x202)
      ∷ []

  frame_lem : frame ≡ stack_p - 56
  frame_lem = omega arith

  -- The frame's words are not the entry's.
  entry-kept :
      (off : ℕ)
      → off + 4 ≤ 44
      → load32 (setup m this e stack_p size) (this + off)
        ≡ load32 (store_fields m this object) (this + off)
  unfolding setup
  entry-kept off h =
      load32-store_fields_ne (store_fields m this object) frame (this + off) words (omega arith)

  entry-word :
      (off : ℕ)
      → off + 4 ≤ 44
      → Aligned off object
      → load32 (setup m this e stack_p size) (this + off) ≡ final (load32 m (this + off)) off object
  entry-word off h a = entry-kept off h ∙ load32-store_fields m this off object a

  frame-word :
      (off : ℕ)
      → Aligned off words
      → load32 (setup m this e stack_p size) (stack_p - 56 + off)
        ≡ final (load32 (store_fields m this object) (frame + off)) off words
  unfolding setup
  frame-word off a =
      rw (← frame_lem) (load32-store_fields (store_fields m this object) frame off words a)

  -- Where the entry and the 56 bytes below the stack pointer are apart, `setup` makes the process
  -- ready with the frame there as its state: it starts at the entry point, in the code, data and
  -- stack segments of the table, with interrupts enabled and eax zero. The fields that lead to the
  -- parent, the siblings, the children and the messages keep whatever they held.
  pub setup-Started : Started m (setup m this e stack_p size) this e stack_p size (stack_p - 56)
  setup-Started = record {
    state = entry-word 20 (omega arith) (omega arith);
    stack = entry-word 4 (omega arith) (omega arith) ∙ omega arith;
    stack_size = entry-word 8 (omega arith) (omega arith) ∙ omega arith;
    cpu_state = entry-word 0 (omega arith) (omega arith) ∙ omega arith;
    eip = frame-word 36 (omega arith) ∙ omega arith;
    cs = frame-word 40 (omega arith);
    ds = frame-word 28 (omega arith);
    ss = frame-word 52 (omega arith);
    eflags = frame-word 44 (omega arith);
    ebp = frame-word 24 (omega arith) ∙ omega arith;
    eax = frame-word 0 (omega arith);
    parent = entry-word 16 (omega arith) (omega arith);
    sibling = entry-word 24 (omega arith) (omega arith);
    child = entry-word 28 (omega arith) (omega arith);
    head = entry-word 36 (omega arith) (omega arith);
  }
