-- ===== src/Kernel/Waitpid.antt =====
-- The system call `waitpid` when there is a message for it.
use a_simple_microkernel.Prelude.{
  ℕ, Bool, ◌+◌, ◌%◌, ◌^◌, ◌<◌, ◌≡◌, refl, sym, subst, ◌∙◌, some, List, [], ◌∷◌, ◌++◌, length, arith,
  ne→==, All, All-map, All-prefix, All-suffix, All-unlink,
}
use a_simple_microkernel.Store.{Ptr, null, Mem, load8, load32, store32}
use a_simple_microkernel.Store.Laws.{Apart, load8-lt, load32-store32_self, load32-store32_ne}
use a_simple_microkernel.Store.Chain.{
  Away, before, since, before-append-since, Chain, Same, Separate, Chain-frame, Chain-suffix,
  Separate-mid,
}
use a_simple_microkernel.Store.Objects.{Separate-cross, Separate-turned}
use a_simple_microkernel.MemManager.{MemManager}
use a_simple_microkernel.MemManager.Freed.{free-kept}
use a_simple_microkernel.Process.{matches}
use a_simple_microkernel.Process.Receive.{Queue, rec_msg-first}
use a_simple_microkernel.Lifecycle.{get_current_process}
use a_simple_microkernel.Kernel.{Kernel, sys_waitpid, handle_interrupt}

-- A chain of objects stays as it is when the links are kept that a write to one of them, and to
-- another list of objects, can reach.
Same-objects :
    (off : ℕ) (m n : Mem) (P : Ptr → Type 0)
    → ((x : Ptr) → P x → load32 n (x + off) ≡ load32 m (x + off))
    → (xs : List Ptr) → All P xs
    → Same off m n xs
Same-objects off m n P f xs w = All-map P (λ x. load32 n (x + off) ≡ load32 m (x + off)) f xs w

-- Both predicates at every element.
All-both : (P Q : Ptr → Type 0) (xs : List Ptr) → All P xs → All Q xs → All (λ x. P x × Q x) xs
All-both P Q [] v w = tt
All-both P Q (x ∷ xs) (v, vs) (w, ws) = ((v, w), All-both P Q xs vs ws)

-- Where the messages `xs` to the process at `p`, the free chunks `fl`, the process's entry and its
-- frame at `esp` are: at distinct places.
pub record Laid (esp p : Ptr) (xs fl : List Ptr) : Type 0 where
  pub objects : Separate 12 (xs ++ fl)
  pub entry : All (λ x. Apart x 12 (p + 36) 4) (xs ++ fl)
  pub frame : All (λ x. Apart x 12 (esp + 12) 4) xs
  pub head : Apart (p + 36) 4 (esp + 12) 4

module _ (m : Mem) (a : MemManager) (esp p : Ptr) (xs fl : List Ptr) (l : Laid esp p xs fl) where
  -- The free list is not written when a message is taken out of the queue.
  free-list :
      (m1 : Mem)
      → ((b : Ptr)
          → Apart b 4 (p + 36) 4
          → All (λ x. Apart (x + 8) 4 b 4) xs
          → load32 m1 b ≡ load32 m b)
      → Chain 4 m a.free_list fl
      → Chain 4 m1 a.free_list fl
  free-list m1 kept c = Chain-frame 4 m m1 fl a.free_list c (
      Same-objects 4 m m1 (λ c. All (λ x. Apart c 12 x 12) xs × Apart c 12 (p + 36) 4)
        (λ c (w, h). kept (c + 4) (omega arith) (
          All-map (λ x. Apart c 12 x 12) (λ x. Apart (x + 8) 4 (c + 4) 4) (λ x g. omega arith) xs
            w))
        fl
        (All-both (λ c. All (λ x. Apart c 12 x 12) xs) (λ c. Apart c 12 (p + 36) 4) fl
          (Separate-turned 12 xs fl l.objects)
          (All-suffix (λ x. Apart x 12 (p + 36) 4) xs fl l.entry)))

  module _ (ys : List Ptr) (t : Ptr) (zs : List Ptr) (split : ys ++ t ∷ zs ≡ xs) (m1 m2 : Mem)
      (v : ℕ)
      (kept : (b : Ptr)
        → Apart b 4 (t + 4) 4
        → All (λ c. Apart (c + 4) 4 b 4) fl
        → load32 m2 b ≡ load32 m1 b) where
    abbrev end : Mem
    end = store32 m2 (esp + 12) v

    rest : (P : Ptr → Type 0) → All P xs → All P (ys ++ zs)
    rest P w = All-unlink P ys t zs (subst (All P) (sym split) w)

    entry_t : Apart t 12 (p + 36) 4
    entry_t =
        (All-suffix (λ x. Apart x 12 (p + 36) 4) ys (t ∷ zs)
          (subst (All (λ x. Apart x 12 (p + 36) 4)) (sym split)
            (All-prefix (λ x. Apart x 12 (p + 36) 4) xs fl l.entry))).0

    head-kept : load32 end (p + 36) ≡ load32 m1 (p + 36)
    head-kept =
        load32-store32_ne m2 (esp + 12) v (p + 36) l.head
        ∙ kept (p + 36) (let h = entry_t in omega arith) (
            All-map (λ x. Apart x 12 (p + 36) 4) (λ c. Apart (c + 4) 4 (p + 36) 4)
              (λ x h. omega arith) fl (All-suffix (λ x. Apart x 12 (p + 36) 4) xs fl l.entry))

    queue-kept :
        Separate 12 xs
        → Chain 8 m1 (load32 m1 (p + 36)) (ys ++ zs)
        → Chain 8 end (load32 end (p + 36)) (ys ++ zs)
    queue-kept s c = rw head-kept (
        Chain-frame 8 m1 end (ys ++ zs) (load32 m1 (p + 36)) c (
          Same-objects 8 m1 end
            (λ x. Apart t 12 x 12 × (All (λ c. Apart x 12 c 12) fl × Apart x 12 (esp + 12) 4))
            (λ x (h, (w, g)).
              load32-store32_ne m2 (esp + 12) v (x + 8) (omega arith)
              ∙ kept (x + 8) (omega arith) (
                  All-map (λ c. Apart x 12 c 12) (λ c. Apart (c + 4) 4 (x + 8) 4)
                    (λ c e. omega arith) fl w))
            (ys ++ zs)
            (All-both (λ x. Apart t 12 x 12)
              (λ x. All (λ c. Apart x 12 c 12) fl × Apart x 12 (esp + 12) 4) (ys ++ zs)
              (Separate-mid 12 ys t zs (subst (Separate 12) (sym split) s))
              (All-both (λ x. All (λ c. Apart x 12 c 12) fl) (λ x. Apart x 12 (esp + 12) 4)
                (ys ++ zs)
                (rest (λ x. All (λ c. Apart x 12 c 12) fl) (Separate-cross 12 xs fl l.objects))
                (rest (λ x. Apart x 12 (esp + 12) 4) l.frame)))))

module _ (fuel : ℕ) (k : Kernel) (esp p : Ptr) (xs fl : List Ptr) where
  abbrev m : Mem
  m = k.process_manager.mem

  abbrev a : MemManager
  a = k.process_manager.process_mem_manager

  abbrev test : Ptr → Bool
  test = matches m (load32 m (esp + 8)) (load32 m (esp + 4) % 2 ^ 16)

  -- Call 7, when a message to the process in execution has the state in ecx and its sender in the low
  -- half of ebx (-1 stands for any), gives the sender of the first such message in edx and returns the
  -- frame; the queue is then the other messages in order. The queue and the free list of the memory
  -- for processes are well linked and the fuel greater than their lengths, and the messages, the free
  -- chunks, the head of the queue and edx in the frame are at distinct places. Words apart from the
  -- head, the links, edx and the message are kept.
  pub handle_interrupt-waitpid_found :
      (t : Ptr) (zs : List Ptr)
      → get_current_process k.process_manager ≡ some p
      → load32 m esp ≡ 7
      → Queue m p xs
      → Chain 4 m a.free_list fl
      → Laid esp p xs fl
      → length xs < fuel
      → length fl < fuel
      → since test xs ≡ t ∷ zs
      → (k' : Kernel) × (handle_interrupt fuel k esp ≡ some (esp, k'))
        × (load32 k'.process_manager.mem (esp + 12) ≡ load8 m (t + 4))
        × Chain 8 k'.process_manager.mem
            (load32 k'.process_manager.mem (p + 36))
            (before test xs ++ zs)
        × ((b : Ptr)
            → Apart b 4 (p + 36) 4
            → Away 8 b xs
            → Apart b 4 (t + 4) 4
            → Away 4 b fl
            → Apart b 4 (esp + 12) 4
            → load32 k'.process_manager.mem b ≡ load32 m b)
  unfolding handle_interrupt sys_waitpid
  handle_interrupt-waitpid_found t zs current number q chunks l few few' e =
      let ys = before test xs in
      let split : ys ++ t ∷ zs ≡ xs = rw (← e) (before-append-since test xs) in
      let (m1, got, queue, kept, pid) =
        rec_msg-first m p fuel (load32 m (esp + 8)) (load32 m (esp + 4) % 2 ^ 16) xs q few t zs e in
      let ne =
        (Chain-suffix 8 m ys (t ∷ zs) (load32 m (p + 36)) (subst (Queue m p) (sym split) q).0).1 in
      let (r, freed, kept') =
        free-kept a m1 t fuel fl (free-list m a esp p xs fl l m1 kept chunks) few' in
      let v = load8 m1 (t + 4) in
      let entry = entry_t m a esp p xs fl l ys t zs split m1 r.1 v kept' in
      (
        record k {
          process_manager = record k.process_manager {
            process_mem_manager = r.0;
            mem = store32 r.1 (esp + 12) v;
          };
        },
        rw (number, current, got, ne→== t null ne, freed) refl,
        load32-store32_self r.1 (esp + 12) v
            ∙ omega (arith, load8-lt m1 (t + 4), pid (omega arith)),
        queue-kept m a esp p xs fl l ys t zs split m1 r.1 v kept' q.1 queue,
        λ b h w g u o. load32-store32_ne r.1 (esp + 12) v b o ∙ kept' b g u ∙ kept b h w,
      )
