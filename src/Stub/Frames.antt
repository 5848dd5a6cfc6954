-- ===== src/Stub/Frames.antt =====
-- The registers in a frame.
use a_simple_microkernel.Prelude.{
  ℕ, ◌+◌, ◌-◌, ◌%◌, ◌^◌, ◌≤◌, ◌<◌, ◌≡◌, ap, ◌∙◌, List, [], ◌∷◌, arith,
}
use a_simple_microkernel.Store.{Ptr, Mem, load32}
use a_simple_microkernel.Store.Laws.{Apart}
use a_simple_microkernel.Process.Setup.{final, Aligned, load32-store_fields, load32-store_fields_ne}
use a_simple_microkernel.Stub.{Registers, save, restore}

-- The registers are words and the segment registers halves of them, and the stack has room.
pub record Fits (r : Registers) : Type 0 where
  pub eax : r.eax < 2 ^ 32
  pub ebx : r.ebx < 2 ^ 32
  pub ecx : r.ecx < 2 ^ 32
  pub edx : r.edx < 2 ^ 32
  pub esi : r.esi < 2 ^ 32
  pub edi : r.edi < 2 ^ 32
  pub ebp : r.ebp < 2 ^ 32
  pub ds : r.ds < 2 ^ 16
  pub eip : r.eip < 2 ^ 32
  pub cs : r.cs < 2 ^ 16
  pub eflags : r.eflags < 2 ^ 32
  pub esp : r.esp < 2 ^ 32
  pub room : 48 ≤ r.esp

-- The frame at `f` holds the registers.
pub record Frame (m : Mem) (f : Ptr) (r : Registers) : Type 0 where
  pub eax : load32 m f ≡ r.eax
  pub ebx : load32 m (f + 4) ≡ r.ebx
  pub ecx : load32 m (f + 8) ≡ r.ecx
  pub edx : load32 m (f + 12) ≡ r.edx
  pub esi : load32 m (f + 16) ≡ r.esi
  pub edi : load32 m (f + 20) ≡ r.edi
  pub ebp : load32 m (f + 24) ≡ r.ebp
  pub ds : load32 m (f + 28) % 2 ^ 16 ≡ r.ds
  pub eip : load32 m (f + 36) ≡ r.eip
  pub cs : load32 m (f + 40) % 2 ^ 16 ≡ r.cs
  pub eflags : load32 m (f + 44) ≡ r.eflags
  pub esp : (f + 48) % 2 ^ 32 ≡ r.esp

pub restore-Frame : (m : Mem) (f : Ptr) (r : Registers) → Frame m f r → restore m f ≡ r
unfolding restore
restore-Frame m f r e = λ i. record {
  eax = e.eax i;
  ebx = e.ebx i;
  ecx = e.ecx i;
  edx = e.edx i;
  esi = e.esi i;
  edi = e.edi i;
  ebp = e.ebp i;
  ds = e.ds i;
  eip = e.eip i;
  cs = e.cs i;
  eflags = e.eflags i;
  esp = e.esp i;
}

-- A frame whose edx alone is written.
pub answered-Frame :
    (m m' : Mem) (f : Ptr)
    → ((off : ℕ) → off + 4 ≤ 48 → Apart off 4 12 4 → load32 m' (f + off) ≡ load32 m (f + off))
    → (r : Registers) (v : ℕ) → Frame m f r
    → load32 m' (f + 12) ≡ v
    → Frame m' f (record r { edx = v })
answered-Frame m m' f kept r v e edx = record {
  eax =
      ap (load32 m') (omega arith)
      ∙ kept 0 (omega arith) (omega arith)
      ∙ ap (load32 m) (omega arith)
      ∙ e.eax;
  ebx = kept 4 (omega arith) (omega arith) ∙ e.ebx;
  ecx = kept 8 (omega arith) (omega arith) ∙ e.ecx;
  edx = edx;
  esi = kept 16 (omega arith) (omega arith) ∙ e.esi;
  edi = kept 20 (omega arith) (omega arith) ∙ e.edi;
  ebp = kept 24 (omega arith) (omega arith) ∙ e.ebp;
  ds = ap (λ v. v % 2 ^ 16) (kept 28 (omega arith) (omega arith)) ∙ e.ds;
  eip = kept 36 (omega arith) (omega arith) ∙ e.eip;
  cs = ap (λ v. v % 2 ^ 16) (kept 40 (omega arith) (omega arith)) ∙ e.cs;
  eflags = kept 44 (omega arith) (omega arith) ∙ e.eflags;
  esp = e.esp;
}

module _ (r : Registers) (m : Mem) (t : Fits r) where
  abbrev words : List (ℕ × ℕ)
  words =
      (44, r.eflags)
      ∷ (40, r.cs)
      ∷ (36, r.eip)
      ∷ (32, 0)
      ∷ (28, r.ds)
      ∷ (24, r.ebp)
      ∷ (20, r.edi)
      ∷ (16, r.esi)
      ∷ (12, r.edx)
      ∷ (8, r.ecx)
      ∷ (4, r.ebx)
      ∷ (0, r.eax)
      ∷ []

  abbrev f : Ptr
  f = (save r m).0

  pub save-place : (save r m).0 ≡ r.esp - 48
  unfolding save
  save-place = omega (arith, t.room, t.esp)

  word :
      (off : ℕ)
      → Aligned off words
      → load32 (save r m).1 (f + off) ≡ final (load32 m (f + off)) off words
  unfolding save
  word off a = load32-store_fields m f off words a

  -- The words outside the frame.
  pub save-kept : (a : Ptr) → Apart a 4 (r.esp - 48) 48 → load32 (save r m).1 a ≡ load32 m a
  unfolding save
  save-kept a h = load32-store_fields_ne m f a words (omega (arith, save-place))

  pub save-Frame : Frame (save r m).1 (save r m).0 r
  save-Frame = record {
    eax = ap (load32 (save r m).1) (omega arith) ∙ word 0 (omega arith) ∙ omega (arith, t.eax);
    ebx = word 4 (omega arith) ∙ omega (arith, t.ebx);
    ecx = word 8 (omega arith) ∙ omega (arith, t.ecx);
    edx = word 12 (omega arith) ∙ omega (arith, t.edx);
    esi = word 16 (omega arith) ∙ omega (arith, t.esi);
    edi = word 20 (omega arith) ∙ omega (arith, t.edi);
    ebp = word 24 (omega arith) ∙ omega (arith, t.ebp);
    ds = ap (λ v. v % 2 ^ 16) (word 28 (omega arith)) ∙ omega (arith, t.ds);
    eip = word 36 (omega arith) ∙ omega (arith, t.eip);
    cs = ap (λ v. v % 2 ^ 16) (word 40 (omega arith)) ∙ omega (arith, t.cs);
    eflags = word 44 (omega arith) ∙ omega (arith, t.eflags);
    esp = ap (λ v. (v + 48) % 2 ^ 32) save-place ∙ omega (arith, t.room, t.esp);
  }

  -- A frame that is saved and restored, on a stack with room for it, gives back all registers.
  pub restore-save : restore (save r m).1 (save r m).0 ≡ r
  restore-save = restore-Frame (save r m).1 (save r m).0 r save-Frame
